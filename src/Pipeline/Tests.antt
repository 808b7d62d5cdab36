-- ===== src/Pipeline/Tests.antt =====
-- Runs of internal/pipeline/compile.go on small files, and its theorems at them.
use luncur.Common.{
  ◌≤◌, ◌≡◌, refl, sym, subst, Bytes, codes, List, [], ◌∷◌, Memᴰ, Acc, some, arith, if◌then◌else◌,
  str_eq, str_eq_iff, count_of, Bool, true, false,
}
use mathlib.Core.List.Memᴰ
use luncur.Pipeline.Step.{RawSpec}
use luncur.Pipeline.Graph.{Needs, found, visit, visit_deps, find_cycle, transitive_needs, topo_sort}
use luncur.Pipeline.Needed.{Dep, Closed}
use luncur.Pipeline.Cycle.{Reported, find_cycle-Reported}
use luncur.Pipeline.Upstream.{UpstreamOf, transitive_needs-UpstreamOf}
use luncur.Pipeline.Kahn.{IsTopoOrder, topo_sort-IsTopoOrder}
use luncur.Pipeline.Compile.{compile_raw, zero_raw_step}
use luncur.Pipeline.Compile.Entries.{DistinctKeys}
use luncur.Pipeline.Compile.Verdict.{Verdict, compile_raw-Verdict}

abbrev build : Bytes
build = codes "build"

abbrev train : Bytes
train = codes "train"

-- A file of two steps: "train" needs "build" and reads its output "model".
abbrev two_steps : RawSpec
two_steps =
    (
      train,
      record zero_raw_step {
        needs = build ∷ [];
        image = codes "py";
        inputs = codes "build/model" ∷ [];
      },
    )
    ∷ (build, record zero_raw_step { image = codes "go"; outputs = codes "model" ∷ [] })
    ∷ []

two_steps-DistinctKeys : DistinctKeys two_steps
unfolding count_of
two_steps-DistinctKeys m = ground (arith, str_eq_iff m train, str_eq_iff m build)

compile_raw-Verdict_example : Verdict two_steps (compile_raw two_steps)
compile_raw-Verdict_example = compile_raw-Verdict two_steps two_steps-DistinctKeys

-- Needs of a list of two names, the second needing the first.
abbrev line : Needs
line n = if str_eq n train then build ∷ [] else []

abbrev line_names : List Bytes
line_names = build ∷ train ∷ []

line_mem : (d : Bytes) (t : Bool) → Memᴰ d (if t then build ∷ [] else []) → d ≡ build
line_mem d true md = Memᴰ.eq_of_singleton md
line_mem d false md = elim md [ ]

line-Closed : Closed line_names line
line-Closed n d m md = Memᴰ.head (line_mem d (str_eq n train) md)

line-once : (m : Bytes) → count_of m line_names ≤ 1
unfolding count_of
line-once m = ground (arith, str_eq_iff m train, str_eq_iff m build)

build-Acc : Acc (Dep line) build
unfolding str_eq
build-Acc = Acc.intro build (λ d md. elim md [ ])

line-Acc : (n : Bytes) → Memᴰ n line_names → Acc (Dep line) n
line-Acc n m =
    Acc.intro n (λ d md. subst (Acc (Dep line)) (sym (line_mem d (str_eq n train) md)) build-Acc)

find_cycle-Reported_example : Reported line_names line (find_cycle line_names line)
find_cycle-Reported_example = find_cycle-Reported line_names line line-Closed

topo_sort-IsTopoOrder_example :
    (out : List Bytes) × (topo_sort line_names line ≡ some out) × IsTopoOrder line_names line out
topo_sort-IsTopoOrder_example = topo_sort-IsTopoOrder line_names line line-once line-Closed line-Acc

transitive_needs-UpstreamOf_example : UpstreamOf line train (transitive_needs 3 train line)
transitive_needs-UpstreamOf_example =
    transitive_needs-UpstreamOf 3 line_names train line line-Closed (Memᴰ.tail (Memᴰ.head refl))
      (omega arith)

-- Two steps that need one another: the search names one of them.
abbrev ring : Needs
ring n = if str_eq n train then build ∷ [] else train ∷ []

ring_found : find_cycle line_names ring ≡ found build
unfolding find_cycle visit visit_deps str_eq
ring_found = refl
