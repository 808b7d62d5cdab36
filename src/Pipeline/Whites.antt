-- ===== src/Pipeline/Whites.antt =====
-- How many steps the depth-first searches of internal/pipeline/compile.go have not reached.
use luncur.Common.{
  ℕ, suc, ◌≤◌, ◌<◌, ◌≡◌, ◌≢◌, Bytes, List, [], ◌∷◌, Memᴰ, arith, str_eq_iff, update, update_self,
  length,
}
use luncur.Pipeline.Graph.{white, gray, black, Colors}

-- How many names are white.
pub whites : Colors → List Bytes → ℕ
whites c [] = 0
whites c (n ∷ ns) =
    let rest = whites c ns in elim (c n) [ white ↦ suc rest | gray ↦ rest | black ↦ rest ]

pub whites_mono :
    (c c' : Colors) (ns : List Bytes)
    → ((m : Bytes) → c' m ≡ white → c m ≡ white)
    → whites c' ns ≤ whites c ns
unfolding whites
whites_mono c c' [] h = omega arith
whites_mono c c' (n ∷ ns) h = ground (arith, h n, whites_mono c c' ns h)

pub whites_drop :
    (c c' : Colors) (n : Bytes) (ns : List Bytes)
    → Memᴰ n ns
    → c n ≡ white
    → c' n ≢ white
    → ((m : Bytes) → c' m ≡ white → c m ≡ white)
    → whites c' ns < whites c ns
unfolding whites
whites_drop c c' n [] m w g h = elim m [ ]
whites_drop c c' n (x ∷ ns) (Memᴰ.head e) w g h = ground (arith, h x, whites_mono c c' ns h)
whites_drop c c' n (x ∷ ns) (Memᴰ.tail m) w g h = ground (arith, h x, whites_drop c c' n ns m w g h)

pub whites_le : (c : Colors) (ns : List Bytes) → whites c ns ≤ length ns
unfolding whites
whites_le c [] = omega arith
whites_le c (n ∷ ns) = ground (arith, whites_le c ns)

pub whites-gray :
    (c : Colors) (n : Bytes) (ns : List Bytes)
    → Memᴰ n ns
    → c n ≡ white
    → whites (update c n gray) ns < whites c ns
whites-gray c n ns m w =
    whites_drop c (update c n gray) n ns m w (λ e. cc (update_self c n gray))
      (λ x g. ground (arith, str_eq_iff n x))
