-- ===== src/Ttl/Kept.antt =====
-- What holds of every entry of the store of backend/services/auto_session.py goes on holding.
use mister_pilot_proxy.Prelude.{
  ℕ, ◌-◌, ◌≡◌, String, Option, none, some, [], ◌∷◌, ◌++◌, arith, ltb, length, Bool-cases,
  Option-cases, inl, inr, ◌==◌, eq_iff, sym, ap,
}
use mathlib.Core.Path.{subst}
use mister_pilot_proxy.Dict
use mister_pilot_proxy.Dict.{Dict}
use mister_pilot_proxy.Ttl.{TtlStore, trim, get_key, get, put_key, put}

-- What a read finds is kept under the key.
pub get-found {ℓ} :
    {V : Type ℓ} (store : TtlStore V) (now : ℕ) (key : String) (v : V)
    → (get store now (some key)).1 ≡ some v
    → (stored : ℕ) × (Dict.get store.items key ≡ some (stored, v))
unfolding get get_key
get-found store now key v h = elim (Option-cases (Dict.get store.items key)) [
  | inl e ↦ absurd (ground (arith, e, h))
  | inr ((stored, w), e) ↦ elim (Bool-cases (ltb store.ttl (now - stored))) [
    | inl old ↦ absurd (ground (arith, e, old, h))
    | inr new ↦ let same : some w ≡ some v = rw (e, get, get_key, new) at h in (stored, cc)
  ]
]

module _ {V : Type 0} (P : String → V → Type 0) where
  abbrev pub Entries : Dict (ℕ × V) → Type 0
  Entries [] = Unit
  Entries ((k, (stored, v)) ∷ items) = P k v × Entries items

  abbrev pub Kept : TtlStore V → Type 0
  Kept store = Entries store.items

  Entries-pop : (items : Dict (ℕ × V)) (key : String) → Entries items → Entries (Dict.pop items key)
  unfolding Dict.pop
  Entries-pop [] key h = tt
  Entries-pop ((k, (stored, v)) ∷ items) key h =
      let rest = Entries-pop items key h.1 in
      elim (Bool-cases (k == key)) [ inl e ↦ rw e rest | inr e ↦ rw e (h.0, rest) ]

  Entries-append :
      (items more : Dict (ℕ × V)) → Entries items → Entries more → Entries (items ++ more)
  Entries-append [] more h k = k
  Entries-append ((i, (stored, v)) ∷ items) more h k = (h.0, Entries-append items more h.1 k)

  Entries-put :
      (items : Dict (ℕ × V)) (key : String) (stored : ℕ) (v : V)
      → P key v
      → Entries items
      → Entries (Dict.put items key (stored, v))
  unfolding Dict.put
  Entries-put [] key stored v p h = (p, tt)
  Entries-put ((k, (s, w)) ∷ items) key stored v p h =
      let rest = Entries-put items key stored v p h.1 in
      elim (Bool-cases (k == key)) [
        | inl e ↦ rw e (subst (λ x. P x v) (sym ((eq_iff k key).0 e)) p, h.1)
        | inr e ↦ rw e (h.0, rest)
      ]

  Entries-trim : (n : ℕ) (items : Dict (ℕ × V)) → Entries items → Entries (trim n items)
  unfolding trim
  Entries-trim n [] h = tt
  Entries-trim n ((k, (s, w)) ∷ items) h =
      let rest = Entries-trim n items h.1 in
      elim (Bool-cases (ltb n (length ((k, (s, w)) ∷ items)))) [
        | inl e ↦ rw e rest
        | inr e ↦ rw e h
      ]

  value_eq : {a b : ℕ × V} → some a ≡ some b → a.1 ≡ b.1
  value_eq e = ap (λ (x : ℕ × V). x.1) (some_eq e)
    where
      some_eq : {a b : ℕ × V} → some a ≡ some b → a ≡ b
      some_eq e = cc

  Entries-get :
      (items : Dict (ℕ × V)) (key : String) (stored : ℕ) (v : V)
      → Dict.get items key ≡ some (stored, v)
      → Entries items
      → P key v
  unfolding Dict.get
  Entries-get [] key stored v e h = cc
  Entries-get ((k, (s, w)) ∷ items) key stored v e h = elim (Bool-cases (k == key)) [
    | inl same ↦
        let is : w ≡ v = value_eq (rw same at e) in
        subst (λ x. P x v) ((eq_iff k key).0 same) (subst (λ y. P k y) is h.0)
    | inr differs ↦ Entries-get items key stored v (rw differs at e) h.1
  ]

  -- What a read finds has the property, and so has what is left.
  abbrev pub Finds : String → TtlStore V × Option V → Type 0
  Finds key (store, none) = Kept store
  Finds key (store, some v) = Kept store × P key v

  pub get-Finds :
      (store : TtlStore V) (now : ℕ) (key : String)
      → Kept store
      → Finds key (get store now (some key))
  unfolding get get_key
  get-Finds store now key h = elim (Option-cases (Dict.get store.items key)) [
    | inl e ↦ rw (e, get, get_key) h
    | inr ((stored, v), e) ↦ elim (Bool-cases (ltb store.ttl (now - stored))) [
      | inl old ↦ rw (e, get, get_key, old) (Entries-pop store.items key h)
      | inr new ↦
          let found = Entries-get store.items key stored v e h in
          rw (e, get, get_key, new)
            (
              Entries-append (Dict.pop store.items key) ((key, (stored, v)) ∷ [])
                  (Entries-pop store.items key h) (found, tt),
              found,
            )
    ]
  ]

  pub put-Kept :
      (store : TtlStore V) (now : ℕ) (key : String) (v : V)
      → P key v
      → Kept store
      → Kept (put store now (some key) v)
  unfolding put put_key
  put-Kept store now key v p h = Entries-trim store.max_items _ (
      Entries-append (Dict.pop (Dict.put store.items key (now, v)) key) ((key, (now, v)) ∷ [])
        (Entries-pop (Dict.put store.items key (now, v)) key
          (Entries-put store.items key now v p h))
        (p, tt))
