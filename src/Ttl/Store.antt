-- ===== src/Ttl/Store.antt =====
-- What `TTLStore` of backend/services/auto_session.py promises: bounds, expiry, and which item a
-- `put` drops.
use mister_pilot_proxy.Prelude.{
  ℕ, ◌-◌, ◌≤◌, String, ◌≡◌, refl, ◌≢◌, Bool, false, Bool-cases, inl, inr, Option, Option-cases,
  none, some, [], ◌∷◌, ◌++◌, ltb, eqb, length, length-append, arith, ◌==◌, eq_iff, eq_refl,
  if◌then◌else◌,
}
use mister_pilot_proxy.Dict
use mister_pilot_proxy.Dict.{Dict, get-pop, get-put, length-pop-le, length-pop-lt}
use mister_pilot_proxy.Ttl.{TtlStore, trim, move_to_end, get_key, put_key, get, put}
use mister_pilot_proxy.Ttl.Items.{
  Distinct, get-append, Distinct-append, Distinct-pop, pop_absent, pop-put,
}

pub record IsValid {ℓ} {V : Type ℓ} (store : TtlStore V) : Type ℓ where
  pub bounded : length store.items ≤ store.max_items
  pub distinct : Distinct store.items

trim_fits {ℓ} :
    {V : Type ℓ} (m : ℕ) (items : Dict (ℕ × V)) → length items ≤ m → trim m items ≡ items
unfolding trim
trim_fits m [] h = refl
trim_fits m (x ∷ items) h = ground arith

length-trim-le {ℓ} : {V : Type ℓ} (m : ℕ) (items : Dict (ℕ × V)) → length (trim m items) ≤ m
unfolding trim
length-trim-le m [] = omega arith
length-trim-le m (x ∷ items) = ground (arith, length-trim-le m items)

Distinct-trim {ℓ} :
    {V : Type ℓ} (m : ℕ) (items : Dict (ℕ × V)) → Distinct items → Distinct (trim m items)
unfolding trim
Distinct-trim m [] d = tt
Distinct-trim m ((k, v) ∷ items) d = elim (Bool-cases (ltb m (length ((k, v) ∷ items)))) [
  | inl long ↦ rw long (Distinct-trim m items d.1)
  | inr fits ↦ rw fits d
]

abbrev pub is_key : Option String → String → Bool
is_key none j = false
is_key (some k) j = k == j

module _ {ℓ} {V : Type ℓ} where
  Distinct-move_to_end :
      (items : Dict (ℕ × V)) (k : String) (item : ℕ × V)
      → Distinct items
      → Distinct (move_to_end items k item)
  Distinct-move_to_end items k item d =
      Distinct-append (Dict.pop items k) k item (Distinct-pop items k d) (rw (get-pop, eq_refl))

  -- `put` keeps the store within its size and its keys distinct, also from a store that is too long.
  put_key-IsValid :
      (store : TtlStore V) (now : ℕ) (key : String) (value : V)
      → Distinct store.items
      → IsValid (put_key store now key value)
  unfolding put_key
  put_key-IsValid store now key value d = record {
    bounded = length-trim-le store.max_items _;
    distinct = Distinct-trim store.max_items _ (
        Distinct-append (Dict.pop (Dict.put store.items key (now, value)) key) key (now, value)
          (rw pop-put (Distinct-pop store.items key d)) (rw (get-pop, eq_refl)));
  }

  get-trim_last :
      (m : ℕ) (items : Dict (ℕ × V)) (k : String) (item : ℕ × V)
      → 1 ≤ m
      → Dict.get items k ≡ none
      → Dict.get (trim m (items ++ (k, item) ∷ [])) k ≡ some item
  unfolding trim Dict.get
  get-trim_last m [] k item h absent = ground (arith, eq_refl k)
  get-trim_last m ((i, w) ∷ items) k item h absent =
      ground (arith, get-trim_last m items k item, get-append items k k item, eq_refl k)

  -- A value that was put is what `get` of its key returns, until more than the store's lifetime has
  -- passed, and then nothing is; the store must have room for one item and hold no key twice.
  pub get-put_self :
      (store : TtlStore V) (now later : ℕ) (key : String) (value : V)
      → 1 ≤ store.max_items
      → Distinct store.items
      → (get (put store now (some key) value) later (some key)).1
        ≡ (if ltb store.ttl (later - now) then none else some value)
  unfolding get put get_key put_key
  get-put_self store now later key value room d =
      let at =
        get-trim_last store.max_items (Dict.pop (Dict.put store.items key (now, value)) key) key
          (now, value) room (rw (get-pop, eq_refl)) in
      rw (at, get_key) (ground arith)

  -- The key that a `put` has to drop: the least recently used one, if the key is new and the store
  -- is full.
  abbrev pub first_key : Dict (ℕ × V) → Option String
  first_key [] = none
  first_key ((k, item) ∷ items) = some k

  abbrev pub victim : TtlStore V → String → Option String
  victim store key = elim (Dict.get store.items key) [
    | none ↦ if eqb (length store.items) store.max_items then first_key store.items else none
    | some item ↦ none
  ]

  drop_first :
      (m : ℕ) (items : Dict (ℕ × V)) (k j : String) (item : ℕ × V)
      → Distinct items
      → k ≢ j
      → length items ≡ m
      → Dict.get (trim m (items ++ (k, item) ∷ [])) j
        ≡ (if is_key (first_key items) j then none else Dict.get items j)
  unfolding trim Dict.get
  drop_first m [] k j item d ne e = ground (arith, eq_iff k j)
  drop_first m ((i, w) ∷ items) k j item d ne e =
      let fits =
        trim_fits m (items ++ (k, item) ∷ [])
          (omega (arith, length-append items ((k, item) ∷ []))) in
      ground (
        arith,
        fits,
        d.0,
        length-append items ((k, item) ∷ []),
        get-append items k j item,
        eq_iff k j,
        eq_iff i j,
      )

  -- `put` of a key changes no other key, but for the one it has to drop for room: the least recently
  -- used, and only when the key is new and the store is full.
  pub put_frame :
      (store : TtlStore V) (now : ℕ) (key j : String) (value : V)
      → IsValid store
      → key ≢ j
      → Dict.get (put store now (some key) value).items j
        ≡ (if is_key (victim store key) j then none else Dict.get store.items j)
  unfolding put put_key
  put_frame store now key j value v ne =
      let items = store.items in
      rw (pop-put items key (now, value)) (elim (Option-cases (Dict.get items key)) [
        | inl miss ↦
            rw (pop_absent items key miss, miss, victim)
              (elim (Bool-cases (eqb (length items) store.max_items)) [
                | inl full ↦ rw full (
                    drop_first store.max_items items key j (now, value) v.distinct ne
                      (ground (arith, full)))
                | inr room ↦
                    rw
                      (
                        trim_fits store.max_items (items ++ (key, (now, value)) ∷ []) (
                            ground (
                              arith,
                              room,
                              v.bounded,
                              length-append items ((key, (now, value)) ∷ []),
                            )),
                        room,
                      )
                      (ground (arith, get-append items key j (now, value), eq_iff key j))
              ])
        | inr (old, hit) ↦
            let kept : victim store key ≡ none = rw (hit, victim) in
            let moved = Dict.pop items key ++ (key, (now, value)) ∷ [] in
            let fits = trim_fits store.max_items moved (
              omega (
                arith,
                length-append (Dict.pop items key) ((key, (now, value)) ∷ []),
                length-pop-lt items key old hit,
                v.bounded,
              )) in
            rw (fits, kept)
              (ground (
                arith,
                get-append (Dict.pop items key) key j (now, value),
                get-pop items key j,
                eq_iff key j,
              ))
      ])

-- `put` keeps a store that is within its size and holds no key twice so, whatever the key.
pub put-IsValid {ℓ} :
    {V : Type ℓ} (store : TtlStore V) (now : ℕ) (key : Option String) (value : V)
    → IsValid store
    → IsValid (put store now key value)
unfolding put
put-IsValid store now none value v = v
put-IsValid store now (some key) value v = put_key-IsValid store now key value v.distinct
