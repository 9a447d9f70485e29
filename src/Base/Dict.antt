-- ===== src/Base/Dict.antt =====
-- A Go map, or a sync.Map, whose keys are texts, as an association list. Go visits it in no fixed order.
use mathlib.Core.Path.{◌≡◌, refl, sym}
use mathlib.Core.Option.{Option, none, some}
use mathlib.Core.Option
use mathlib.Core.List.{List, [], ◌∷◌}
use native.Mathlib.Omega.{arith}
use mathlib.Core.Logic.{inl, inr}
use lalmax.Base.Lists.{All}
use lalmax.Base.Tests.{if◌then◌else◌, Bool-cases}
use lalmax.Base.Text.{Text, text_eq, text_eq_iff}

module _ {ℓ} {V : Type ℓ} where
  unfoldable pub load : Text → List (Text × V) → Option V
  load k [] = none
  load k ((j, v) ∷ m) = if text_eq j k then some v else load k m

  unfoldable pub store : Text → V → List (Text × V) → List (Text × V)
  store k v [] = (k, v) ∷ []
  store k v ((j, w) ∷ m) = if text_eq j k then (k, v) ∷ m else (j, w) ∷ store k v m

  -- Every entry of the key goes; a Go map has one at most.
  unfoldable pub delete : Text → List (Text × V) → List (Text × V)
  delete k [] = []
  delete k ((j, w) ∷ m) = let rest = delete k m in if text_eq j k then rest else (j, w) ∷ rest

  -- The value at a key is changed, if there is one.
  unfoldable pub adjust : Text → (V → V) → List (Text × V) → List (Text × V)
  adjust k f [] = []
  adjust k f ((j, w) ∷ m) = if text_eq j k then (j, f w) ∷ m else (j, w) ∷ adjust k f m

  pub load-store :
      (k j : Text) (v : V) (m : List (Text × V))
      → load j (store k v m) ≡ (if text_eq k j then some v else load j m)
  unfolding load store
  load-store k j v [] = refl
  load-store k j v ((i, w) ∷ m) =
      ground (arith, text_eq_iff k j, text_eq_iff i k, text_eq_iff i j, load-store k j v m)

  pub load-delete :
      (k j : Text) (m : List (Text × V))
      → load j (delete k m) ≡ (if text_eq k j then none else load j m)
  unfolding load delete
  load-delete k j [] = ground arith
  load-delete k j ((i, w) ∷ m) =
      ground (arith, text_eq_iff k j, text_eq_iff i k, text_eq_iff i j, load-delete k j m)

  pub load-adjust :
      (k j : Text) (f : V → V) (m : List (Text × V))
      → load j (adjust k f m) ≡ (if text_eq k j then Option.map f (load j m) else load j m)
  unfolding load adjust
  load-adjust k j f [] = ground arith
  load-adjust k j f ((i, w) ∷ m) =
      ground (arith, text_eq_iff k j, text_eq_iff i k, text_eq_iff i j, load-adjust k j f m)

  -- Every entry has a property of its key and its value.
  abbrev pub AllEntries {κ} : (Text → V → Type κ) → List (Text × V) → Type κ
  AllEntries P = All (λ e. P e.0 e.1)

  module _ {κ} (P : Text → V → Type κ) where
    pub load-AllEntries :
        (k : Text) (v : V) (m : List (Text × V)) → AllEntries P m → load k m ≡ some v → P k v
    unfolding load
    load-AllEntries k v [] h e = absurd (ground arith)
    load-AllEntries k v ((j, w) ∷ m) h e = elim (Bool-cases (text_eq j k)) [
      | inl same ↦
          let q : j ≡ k = (text_eq_iff j k).0 same in
          let r : w ≡ v = ground arith in rw (sym q, sym r) h.0
      | inr other ↦ load-AllEntries k v m h.1 (rw other at e)
    ]

    pub store-AllEntries :
        (k : Text) (v : V) (m : List (Text × V))
        → AllEntries P m
        → P k v
        → AllEntries P (store k v m)
    unfolding store
    store-AllEntries k v [] h p = (p, tt)
    store-AllEntries k v ((j, w) ∷ m) h p = elim (Bool-cases (text_eq j k)) [
      | inl same ↦ rw same (p, h.1)
      | inr other ↦ rw other (h.0, store-AllEntries k v m h.1 p)
    ]

    pub delete-AllEntries :
        (k : Text) (m : List (Text × V)) → AllEntries P m → AllEntries P (delete k m)
    unfolding delete
    delete-AllEntries k [] h = tt
    delete-AllEntries k ((j, w) ∷ m) h = elim (Bool-cases (text_eq j k)) [
      | inl same ↦ rw same (delete-AllEntries k m h.1)
      | inr other ↦ rw other (h.0, delete-AllEntries k m h.1)
    ]

    pub adjust-AllEntries :
        (k : Text) (f : V → V) (m : List (Text × V))
        → ((j : Text) (w : V) → P j w → P j (f w))
        → AllEntries P m
        → AllEntries P (adjust k f m)
    unfolding adjust
    adjust-AllEntries k f [] keep h = tt
    adjust-AllEntries k f ((j, w) ∷ m) keep h = elim (Bool-cases (text_eq j k)) [
      | inl same ↦ rw same (keep j w h.0, h.1)
      | inr other ↦ rw other (h.0, adjust-AllEntries k f m keep h.1)
    ]
