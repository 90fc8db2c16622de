-- ===== src/Tabasco/Storage/Written.antt =====
-- Collections whose documents go by `_id`: the document that a write leaves, and how it is read.
use mathlib.Core.List.{Memᴰ}
use mathlib.Core.List.Memᴰ
use mathlib.Core.Option
use distributed_testing_syst.Base.{
  ℕ, List, [], ◌∷◌, Str, str, str_eq, str_eq_iff, Option, none, some, true, false, Bool, Bool-cases,
  ◌<◌, ◌^◌, ◌≡◌, ◌≢◌, ◌⊎◌, refl, ap, sym, ◌∙◌, arith, inl, inr,
}
use distributed_testing_syst.Base.Int.{to_int64, to_int64-injective}
use distributed_testing_syst.Base.Outcome.{Outcome, value, throws, undefined}
use distributed_testing_syst.Extern.Json.{Json}
use distributed_testing_syst.Extern.Mongo.{Mongo, is_int64, upsert_first, or_else}
use distributed_testing_syst.Tabasco.Storage.{id_filter, catch_message, upsert_json}
use distributed_testing_syst.Tabasco.Storage.Upload.{catch_message-none}

-- The element that an upsert writes.
mem-upsert_first {ℓ} :
    {A : Type ℓ} (test : A → Bool) (change : A → A) (new : A) (xs : List A)
    → Memᴰ new (upsert_first test change new xs)
      ⊎ ((x : A) × Memᴰ x xs × (test x ≡ true) × Memᴰ (change x) (upsert_first test change new xs))
unfolding upsert_first
mem-upsert_first test change new [] = inl (Memᴰ.head refl)
mem-upsert_first test change new (x ∷ xs) =
    let ih = mem-upsert_first test change new xs in
    elim (Bool-cases (test x)) [
      | inl t ↦ rw t (inr (x, Memᴰ.head refl, t, Memᴰ.head refl))
      | inr f ↦ rw f (elim ih [
        | inl m ↦ inl (Memᴰ.tail m)
        | inr (y, m, t, c) ↦ inr (y, Memᴰ.tail m, t, Memᴰ.tail c)
      ])
    ]

-- An element after an upsert is an old one, the new one, or an old one changed.
pub mem-upsert_first_cases {ℓ} :
    {A : Type ℓ} (test : A → Bool) (change : A → A) (new : A) (xs : List A) (y : A)
    → Memᴰ y (upsert_first test change new xs)
    → Memᴰ y xs ⊎ (y ≡ new) ⊎ ((x : A) × Memᴰ x xs × (y ≡ change x))
unfolding upsert_first
mem-upsert_first_cases test change new [] y m = elim (Memᴰ.cases_cons m) [
  | inl e ↦ inr (inl e)
  | inr rest ↦ absurd (Memᴰ.not-nil rest)
]
mem-upsert_first_cases test change new (x ∷ xs) y m =
    let ih = mem-upsert_first_cases test change new xs y in
    elim (Bool-cases (test x)) [
      | inl t ↦
          let m' : Memᴰ y (change x ∷ xs) = rw t at m in
          elim (Memᴰ.cases_cons m') [
            | inl e ↦ inr (inr (x, Memᴰ.head refl, e))
            | inr rest ↦ inl (Memᴰ.tail rest)
          ]
      | inr f ↦
          let m' : Memᴰ y (x ∷ upsert_first test change new xs) = rw f at m in
          elim (Memᴰ.cases_cons m') [
            | inl e ↦ inl (Memᴰ.head e)
            | inr rest ↦ elim (ih rest) [
              | inl old ↦ inl (Memᴰ.tail old)
              | inr (inl e) ↦ inr (inl e)
              | inr (inr (z, mem, e)) ↦ inr (inr (z, Memᴰ.tail mem, e))
            ]
          ]
    ]

-- An upsert leaves the elements that it does not select.
mem-upsert_first_other {ℓ} :
    {A : Type ℓ} (test : A → Bool) (change : A → A) (new : A) (xs : List A) (y : A)
    → Memᴰ y xs
    → test y ≡ false
    → Memᴰ y (upsert_first test change new xs)
unfolding upsert_first
mem-upsert_first_other test change new [] y m h = absurd (Memᴰ.not-nil m)
mem-upsert_first_other test change new (x ∷ xs) y m h = elim (Memᴰ.cases_cons m) [
  | inl e ↦ rw (← e, h) (Memᴰ.head refl)
  | inr rest ↦ elim (Bool-cases (test x)) [
    | inl t ↦ rw t (Memᴰ.tail rest)
    | inr f ↦ rw f (Memᴰ.tail (mem-upsert_first_other test change new xs y rest h))
  ]
]

or_else-none {ℓ} : {A : Type ℓ} (o : Option A) → or_else o none ≡ o
or_else-none none = refl
or_else-none (some a) = refl

abbrev pub id_key : Str
id_key = str "_id"

ne_id : (k : Str) → k ≢ id_key → str_eq id_key k ≡ false
ne_id k ne = elim (Bool-cases (str_eq id_key k)) [
  | inl t ↦ absurd (ne (sym ((str_eq_iff id_key k).0 t)))
  | inr f ↦ f
]

module _ (J : Json) (M : Mongo J) where
  pub seeded_field :
      (id : ℕ) (u : M.Doc) (k : Str)
      → k ≢ id_key
      → M.field (M.seeded (id_filter J M id) u) k ≡ M.field u k
  seeded_field id u k ne =
      M.field-seeded (id_filter J M id) u k ne ∙ rw (ne_id k ne) (or_else-none (M.field u k))

  pub matches-id_filter :
      (id : ℕ) (d : M.Doc)
      → M.matches (id_filter J M id) d ≡ true
      → M.field d id_key ≡ some (M.int64_val (to_int64 id))
  matches-id_filter id d h =
      let split = sym (M.matches-cons (is_int64 id_key (to_int64 id)) [] d) ∙ h in
      (M.holds-is_int64 d id_key (to_int64 id)).0 (ground (arith, split))

  matches_of_id :
      (id : ℕ) (d : M.Doc)
      → M.field d id_key ≡ some (M.int64_val (to_int64 id))
      → M.matches (id_filter J M id) d ≡ true
  matches_of_id id d h =
      M.matches-cons (is_int64 id_key (to_int64 id)) [] d
      ∙ ground (arith, (M.holds-is_int64 d id_key (to_int64 id)).1 h, M.matches-nil d)

  -- The document that a write by `_id` leaves.
  pub record Written (id : ℕ) (u : M.Doc) (c c' : M.Coll) (d : M.Doc) : Type 0 where
    pub stored : Memᴰ d (M.docs c')
    pub named : M.field d id_key ≡ some (M.int64_val (to_int64 id))
    pub written :
        (k : Str)
        → k ≢ id_key
        → ((x : M.Doc) → Memᴰ x (M.docs c) → M.field x k ≡ none)
          ⊎ ((v : M.Val) × (M.field u k ≡ some v))
        → M.field d k ≡ M.field u k

  pub update_one-Written :
      (id : ℕ) (u : M.Doc) (c c' : M.Coll)
      → M.update_one c (id_filter J M id) u ≡ (value tt, c')
      → M.field u id_key ≡ none
      → (d : M.Doc) × Written id u c c' d
  update_one-Written id u c c' done no_id =
      let f = id_filter J M id in
      let docs = M.docs-update_one c c' f u done in
      elim (mem-upsert_first (M.matches f) (λ d. M.merged d u) (M.seeded f u) (M.docs c)) [
        | inl m ↦ (
          M.seeded f u,
          record {
            stored = rw docs m;
            named = M.field-seeded_id f u _ no_id refl;
            written = λ k ne h. seeded_field id u k ne;
          },
        )
        | inr (x, m, t, m') ↦ (
          M.merged x u,
          record {
            stored = rw docs m';
            named = rw (M.field-merged, no_id) (matches-id_filter id x t);
            written = λ k ne h. M.field-merged x u k ∙ elim h [
              | inl absent ↦ rw (absent x m) (or_else-none (M.field u k))
              | inr (v, e) ↦ rw e
            ];
          },
        )
      ]

  -- It stays after a write by another `_id`.
  pub Written-update_one :
      (id other : ℕ) (u u' : M.Doc) (c c1 c2 : M.Coll) (d : M.Doc)
      → other ≢ id
      → other < 2 ^ 64
      → id < 2 ^ 64
      → M.update_one c1 (id_filter J M other) u' ≡ (value tt, c2)
      → Written id u c c1 d
      → Written id u c c2 d
  Written-update_one id other u u' c c1 c2 d apart fits fits' done w =
      let f = id_filter J M other in
      record {
        stored = rw (M.docs-update_one c1 c2 f u' done) (
            mem-upsert_first_other (M.matches f) (λ x. M.merged x u') (M.seeded f u') (M.docs c1) d
              w.stored
              (elim (Bool-cases (M.matches f d)) [
                | inr missed ↦ missed
                | inl chosen ↦
                    let both : some (M.int64_val (to_int64 other))
                        ≡ some (M.int64_val (to_int64 id)) =
                      sym (matches-id_filter other d chosen) ∙ w.named in
                    let same : to_int64 other ≡ to_int64 id = M.int64_val-injective _ _ (cc both) in
                    absurd (apart (to_int64-injective other id fits fits' same))
              ]));
        named = w.named;
        written = w.written;
      }

  -- What `find_one` by `_id` reads after a write by `_id`.
  pub find_one-Written :
      (id : ℕ) (u : M.Doc) (c c' : M.Coll) (d : M.Doc) (o : Option M.Doc)
      → Written id u c c' d
      → M.find_one c' (id_filter J M id) ≡ value o
      → o ≡ some d
  find_one-Written id u c c' d none w found =
      let missed = M.find_one-none c' _ d found w.stored in
      absurd (ground (arith, missed, matches_of_id id d w.named))
  find_one-Written id u c c' d (some e) w found =
      let (mem, selected) = M.find_one-some c' _ e found in
      ap some (
        M.id_unique c' e d (M.int64_val (to_int64 id)) mem w.stored
          (matches-id_filter id e selected) w.named)

  pub upsert_json-value :
      (id : ℕ) (r : Outcome M.Doc) (c c' : M.Coll)
      → upsert_json J M id r c ≡ (value tt, c')
      → (u : M.Doc) × (r ≡ value u) × (M.update_one c (id_filter J M id) u ≡ (value tt, c'))
  upsert_json-value id (value u) c c' done = (u, refl, done)
  upsert_json-value id (throws e) c c' done = absurd (ground arith)
  upsert_json-value id undefined c c' done = absurd (ground arith)

  pub catch_message-pair :
      (p : Outcome (Unit {0}) × M.Coll) (c' : M.Coll)
      → ◌≡◌ {A = Outcome (Option Str) × M.Coll} (catch_message p.0, p.1) (value none, c')
      → p ≡ (value tt, c')
  catch_message-pair p c' done =
      let ok = catch_message-none p.0 (ap (λ q. q.0) done) in
      let same = ap (λ q. q.1) done in λ i. (ok i, same i)

  -- Every document converts to JSON.
  abbrev pub Converts : Type 0
  Converts = (d : M.Doc) → (v : J.Value) × (M.json_of_doc d ≡ value v)

  module _ (id : ℕ) (j : J.Value) (u : M.Doc) (c c' : M.Coll) (d : M.Doc) (v : J.Value)
      (made : M.doc_of_json j ≡ value u) (w : Written id u c c' d)
      (read : M.json_of_doc d ≡ value v) (k : Str) (ne : k ≢ id_key) where
    pub find-Written_some : (x : J.Value) → J.find j k ≡ some x → J.find v k ≡ some x
    find-Written_some x e =
        let stored : M.field u k ≡ some (M.json_val x) =
          M.field-doc_of_json j u k made ∙ ap (Option.map M.json_val) e in
        M.find-json_of_doc_some d v x k read (w.written k ne (inr (M.json_val x, stored)) ∙ stored)

    pub find-Written_none :
        ((x : M.Doc) → Memᴰ x (M.docs c) → M.field x k ≡ none)
        → J.find j k ≡ none
        → J.find v k ≡ none
    find-Written_none absent e = M.find-json_of_doc_none d v k read (
        w.written k ne (inl absent) ∙ M.field-doc_of_json j u k made ∙ ap (Option.map M.json_val) e)
