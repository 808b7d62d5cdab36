-- ===== src/Common/Maps.antt =====
-- A Go map as a function from its keys, with the zero value at a missing key.
use mathlib.Core.Path.{◌≡◌}
use mathlib.Core.Logic.{◌≢◌}
use luncur.Common.Tests.{if◌then◌else◌}
use luncur.Common.Text.{Bytes, str_eq, str_eq_refl, str_eq_of_ne}

-- `m[k] = v`
abbrev pub update {ℓ} : {A : Type ℓ} → (Bytes → A) → Bytes → A → Bytes → A
update m k v j = if str_eq k j then v else m j

pub update_self {ℓ} : {A : Type ℓ} (m : Bytes → A) (k : Bytes) (v : A) → update m k v k ≡ v
update_self m k v = rw str_eq_refl

pub update_ne {ℓ} :
    {A : Type ℓ} (m : Bytes → A) (k j : Bytes) (v : A) → k ≢ j → update m k v j ≡ m j
update_ne m k j v h = rw (str_eq_of_ne k j h)
