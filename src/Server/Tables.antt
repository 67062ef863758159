-- ===== src/Server/Tables.antt =====
-- `std::map<uint32_t, V>`: entries in the order of their keys, each key once.
use html_terminal.Prelude.{
  ℕ, ◌≡◌, true, none, some, [], ◌∷◌, Dict, lookup, All, ltb, ◌==◌, if◌then◌else◌, is_some, arith,
  Bool-cases, Option-cases, inl, inr, subst,
}

module _ {V : Type 0} where
  -- A key that is not there yet takes its place in the order.
  unfoldable pub place : ℕ → V → Dict V → Dict V
  place k v [] = (k, v) ∷ []
  place k v ((j, w) ∷ m) =
      let rest = place k v m in if ltb k j then (k, v) ∷ (j, w) ∷ m else (j, w) ∷ rest

  -- `map.insert({k, v})` leaves a key that is there as it is.
  unfoldable pub emplace : ℕ → V → Dict V → Dict V
  emplace k v m = if is_some (lookup k m) then m else place k v m

  -- `map.erase(k)`
  unfoldable pub remove : ℕ → Dict V → Dict V
  remove k [] = []
  remove k ((j, w) ∷ m) = let rest = remove k m in if k == j then rest else (j, w) ∷ rest

  -- What an assignment through `map.find(k)` writes.
  unfoldable pub rewrite : ℕ → V → Dict V → Dict V
  rewrite k v [] = []
  rewrite k v ((j, w) ∷ m) =
      let rest = rewrite k v m in if k == j then (j, v) ∷ m else (j, w) ∷ rest

  -- `map[k] = v`
  unfoldable pub assign : ℕ → V → Dict V → Dict V
  unfolding rewrite
  assign k v m = if is_some (lookup k m) then rewrite k v m else place k v m

  pub lookup-place :
      (j k : ℕ) (v : V) (m : Dict V)
      → lookup k m ≡ none
      → lookup j (place k v m) ≡ (if j == k then some v else lookup j m)
  unfolding place
  lookup-place j k v [] h = ground arith
  lookup-place j k v ((i, w) ∷ m) h = ground (arith, lookup-place j k v m)

  pub lookup-remove :
      (j k : ℕ) (m : Dict V) → lookup j (remove k m) ≡ (if j == k then none else lookup j m)
  unfolding remove
  lookup-remove j k [] = ground arith
  lookup-remove j k ((i, w) ∷ m) = ground (arith, lookup-remove j k m)

  lookup-rewrite :
      (j k : ℕ) (v : V) (m : Dict V)
      → is_some (lookup k m) ≡ true
      → lookup j (rewrite k v m) ≡ (if j == k then some v else lookup j m)
  unfolding rewrite
  lookup-rewrite j k v [] h = ground arith
  lookup-rewrite j k v ((i, w) ∷ m) h = ground (arith, lookup-rewrite j k v m)

  pub lookup-emplace :
      (j k : ℕ) (v : V) (m : Dict V)
      → lookup k m ≡ none
      → lookup j (emplace k v m) ≡ (if j == k then some v else lookup j m)
  unfolding emplace
  lookup-emplace j k v m h = rw h (lookup-place j k v m h)

  pub lookup-assign :
      (j k : ℕ) (v : V) (m : Dict V)
      → lookup j (assign k v m) ≡ (if j == k then some v else lookup j m)
  unfolding assign
  lookup-assign j k v m = elim (Option-cases (lookup k m)) [
    | inl e ↦ rw e (lookup-place j k v m e)
    | inr (w, e) ↦ rw e (lookup-rewrite j k v m (rw e))
  ]

  -- A property of all entries.
  pub All-lookup :
      (P : ℕ × V → Type 0) (k : ℕ) (m : Dict V) {v : V} → All P m → lookup k m ≡ some v → P (k, v)
  All-lookup P k [] {v} h e = cc
  All-lookup P k ((j, w) ∷ m) {v} h e = elim (Bool-cases (k == j)) [
    | inl here ↦
        let key : j ≡ k = ground arith in
        let val : w ≡ v = ground arith in subst (λ x. P (x, v)) key (subst (λ y. P (j, y)) val h.0)
    | inr there ↦ All-lookup P k m h.1 (ground arith)
  ]

  pub All-place :
      (P : ℕ × V → Type 0) (k : ℕ) (v : V) (m : Dict V) → P (k, v) → All P m → All P (place k v m)
  unfolding place
  All-place P k v [] p h = (p, tt)
  All-place P k v ((j, w) ∷ m) p h = elim (Bool-cases (ltb k j)) [
    | inl e ↦ rw e (p, h)
    | inr e ↦ rw e (h.0, All-place P k v m p h.1)
  ]

  pub All-remove : (P : ℕ × V → Type 0) (k : ℕ) (m : Dict V) → All P m → All P (remove k m)
  unfolding remove
  All-remove P k [] h = tt
  All-remove P k ((j, w) ∷ m) h = elim (Bool-cases (k == j)) [
    | inl e ↦ rw e (All-remove P k m h.1)
    | inr e ↦ rw e (h.0, All-remove P k m h.1)
  ]

  All-rewrite :
      (P : ℕ × V → Type 0) (k : ℕ) (v : V) (m : Dict V) → P (k, v) → All P m → All P (rewrite k v m)
  unfolding rewrite
  All-rewrite P k v [] p h = tt
  All-rewrite P k v ((j, w) ∷ m) p h = elim (Bool-cases (k == j)) [
    | inl e ↦ let key : k ≡ j = ground arith in rw e (subst (λ x. P (x, v)) key p, h.1)
    | inr e ↦ rw e (h.0, All-rewrite P k v m p h.1)
  ]

  pub All-emplace :
      (P : ℕ × V → Type 0) (k : ℕ) (v : V) (m : Dict V) → P (k, v) → All P m → All P (emplace k v m)
  unfolding emplace
  All-emplace P k v m p h = elim (Bool-cases (is_some (lookup k m))) [
    | inl e ↦ rw e h
    | inr e ↦ rw e (All-place P k v m p h)
  ]

  pub All-assign :
      (P : ℕ × V → Type 0) (k : ℕ) (v : V) (m : Dict V) → P (k, v) → All P m → All P (assign k v m)
  unfolding assign
  All-assign P k v m p h = elim (Bool-cases (is_some (lookup k m))) [
    | inl e ↦ rw e (All-rewrite P k v m p h)
    | inr e ↦ rw e (All-place P k v m p h)
  ]
