-- ===== src/Prelude/Outcome.antt =====
-- How a Go call ends: a value, a returned error, or a run-time panic. Code that changes state
-- hands the state back in each case, since what was written before an error stays written.
use mathlib.Core.Path.{◌≡◌, refl}
use mathlib.Core.Logic.{◌⊎◌, inl, inr}

-- The error values of the packages edge, pkg/inverted and core/vectorindex, one for each message.
pub data Error : Type 0 where
  type_mismatch cannot_convert unsupported_type unsupported_op : Error
  unsupported_composite_op empty_expression unsupported_filter_value : Error
  dim_unmatched index_null index_design primary_key_empty primary_key_type index_type_error : Error
  not_defined_index collection_not_found collection_not_load collection_exists : Error
  unsupported_quantization unsupported_change value_too_long unsupported_metadata : Error
  unexpected_eof unsupported_tag storage_failed bad_metadata bad_bitmap : Error
  item_not_found item_already_exists : Error

pub data Outcome {ℓ} (A : Type ℓ) : Type ℓ where
  ok : A → Outcome A
  err : Error → Outcome A
  panic : Outcome A

infixl 5 ◌>>=◌ ◌>>◌
abbrev pub ◌>>=◌ {ℓ κ} : {A : Type ℓ} {B : Type κ} → Outcome A → (A → Outcome B) → Outcome B
ok a >>= f = f a
err e >>= f = err e
panic >>= f = panic

abbrev pub ◌>>◌ {ℓ κ} : {A : Type ℓ} {B : Type κ} → Outcome A → Outcome B → Outcome B
m >> k = m >>= λ _. k

-- The next step of a stateful call: it runs only if the one before returned a value.
abbrev pub continue {ℓ κ} :
    {A : Type ℓ} {B : Type ℓ} {S : Type κ} → Outcome A × S → (A → S → Outcome B × S) → Outcome B × S
continue (ok a, s) f = f a s
continue (err e, s) f = (err e, s)
continue (panic, s) f = (panic, s)

pub Outcome-cases {ℓ} :
    {A : Type ℓ} (o : Outcome A)
    → ((a : A) × (o ≡ ok a)) ⊎ (((e : Error) × (o ≡ err e)) ⊎ (o ≡ panic))
Outcome-cases (ok a) = inl (a, refl)
Outcome-cases (err e) = inr (inl (e, refl))
Outcome-cases panic = inr (inr refl)
