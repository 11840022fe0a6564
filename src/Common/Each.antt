-- ===== src/Common/Each.antt =====
-- What holds of each item of a list.
use mathlib.Core.List.{List, [], ◌∷◌, ◌++◌}

abbrev pub Each {ℓ κ} : {A : Type ℓ} → (A → Type κ) → List A → Type κ
Each P [] = Unit
Each P (x ∷ xs) = P x × Each P xs

pub Each-push {ℓ κ} :
    {A : Type ℓ} (P : A → Type κ) (xs : List A) (x : A) → P x → Each P xs → Each P (xs ++ x ∷ [])
Each-push P [] x p h = (p, tt)
Each-push P (y ∷ ys) x p (q, h) = (q, Each-push P ys x p h)
