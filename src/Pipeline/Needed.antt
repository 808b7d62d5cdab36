-- ===== src/Pipeline/Needed.antt =====
-- What a search over the needs of internal/pipeline/compile.go should find: the steps that a step
-- needs through any number of edges, and graphs whose edges stay inside a list of names.
use luncur.Common.{Bytes, List, Memᴰ}
use luncur.Pipeline.Graph.{Needs}

-- n needs a, directly or through other steps.
pub data Needed (needs : Needs) (a : Bytes) : Bytes → Type 0 where
  direct : {n : Bytes} → Memᴰ a (needs n) → Needed needs a n
  further : {m n : Bytes} → Needed needs a m → Memᴰ m (needs n) → Needed needs a n

-- d is in the needs of n.
abbrev pub Dep : Needs → Bytes → Bytes → Type 0
Dep needs d n = Memᴰ d (needs n)

-- No name of the list needs a name outside it.
abbrev pub Closed : List Bytes → Needs → Type 0
Closed names needs = (n d : Bytes) → Memᴰ n names → Memᴰ d (needs n) → Memᴰ d names

module _ {needs : Needs} where
  pub Needed-trans : {a m b : Bytes} → Needed needs a m → Needed needs m b → Needed needs a b
  Needed-trans x (direct e) = further x e
  Needed-trans x (further y e) = further (Needed-trans x y) e
