-- ===== src/Prelude/Dict/Keys.antt =====
-- Maps of which no key stands twice, and maps built from the entries of another.
use mathlib.Core.Path.{◌≡◌, refl, ◌∙◌, sym}
use mathlib.Core.List.{[], ◌∷◌, ◌++◌, append_assoc, append-nil}
use mathlib.Core.Option.{Option, none, some}
use native.Mathlib.Omega.{arith}
use coltt.Prelude.Lists.{All}
use coltt.Prelude.Dict.{Dict, Key, lookup, insert, lookup-insert, lookup-beq}

-- No key stands twice.
abbrev pub Distinct : {K V : Type 0} ⦃key : Key K⦄ → Dict K V → Type 0
Distinct [] = Unit
Distinct ((k, v) ∷ m) = (lookup k m ≡ none) × Distinct m

abbrev pub first_of_two : {A : Type 0} → Option A → Option A → Option A
first_of_two none o = o
first_of_two (some a) o = some a

module _ {K V : Type 0} ⦃key : Key K⦄ where
  unfoldable pub insert_all : Dict K V → Dict K V → Dict K V
  insert_all [] into = into
  insert_all ((k, v) ∷ m) into = insert_all m (insert k v into)

  pub lookup-insert_all :
      (j : K) (m into : Dict K V)
      → Distinct m
      → lookup j (insert_all m into) ≡ first_of_two (lookup j m) (lookup j into)
  unfolding insert_all lookup
  lookup-insert_all j [] into d = refl
  lookup-insert_all j ((k, v) ∷ m) into d =
      lookup-insert_all j m (insert k v into) d.1
      ∙ ground (arith, lookup-insert k j v into, lookup-beq k j m, d.0)

  -- The keys of the first map are not in the second.
  abbrev pub Absent : Dict K V → Dict K V → Type 0
  Absent m into = All (λ e. lookup e.0 into ≡ none) m

  insert_absent :
      (k : K) (v : V) (m : Dict K V) → lookup k m ≡ none → insert k v m ≡ m ++ (k, v) ∷ []
  unfolding lookup insert
  insert_absent k v [] h = refl
  insert_absent k v ((j, w) ∷ m) h = ground (arith, insert_absent k v m)

  Absent-insert :
      (k : K) (v : V) (m into : Dict K V)
      → lookup k m ≡ none
      → Absent m into
      → Absent m (insert k v into)
  unfolding lookup
  Absent-insert k v [] into d h = tt
  Absent-insert k v ((j, w) ∷ m) into d h = (
    ground (arith, h.0, lookup-insert k j v into, key.beq_sym k j),
    Absent-insert k v m into (ground arith) h.1,
  )

  -- New entries come after the old ones, in their order.
  pub insert_all-append :
      (m into : Dict K V) → Distinct m → Absent m into → insert_all m into ≡ into ++ m
  unfolding insert_all
  insert_all-append [] into d h = sym (append-nil into)
  insert_all-append ((k, v) ∷ m) into d h =
      insert_all-append m (insert k v into) d.1 (Absent-insert k v m into d.0 h.1)
      ∙ (rw (insert_absent k v into h.0) (append_assoc into ((k, v) ∷ []) m))

  Absent-nil : (m : Dict K V) → Absent m []
  unfolding lookup
  Absent-nil [] = tt
  Absent-nil (e ∷ m) = (refl, Absent-nil m)

  -- A map built from the entries of another, in their order.
  pub insert_all_nil : (m : Dict K V) → Distinct m → insert_all m [] ≡ m
  insert_all_nil m d = insert_all-append m [] d (Absent-nil m)
