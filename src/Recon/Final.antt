-- ===== src/Recon/Final.antt =====
-- What becomes of a weight discrepancy (backend/internal/recon/recon.go) that is posted or rejected.
use pikship.Prelude.{
  ℕ, ◌≤◌, String, ◌≡◌, refl, sym, ap, ◌∙◌, inl, inr, Bool, true, false, Option, none, some, List,
  [], ◌∷◌, arith, ◌==◌, ==→≡, Bool-cases, Option-cases,
}
use pikship.Prelude.Table.{
  select, update, any, count, any→count, count-update, select-update, select-holds, select-widen,
  select→any,
}
use pikship.Prelude.Tx.{not_found, Result, ok, err}
use pikship.Wallet.Rows
use pikship.Recon.Service.{
  DisputeState, WeightDiscrepancy, Db, has_id, raise_discrepancy, can_dispute, set_disputed,
  dispute, can_decide, set_decided, approve, reject, can_post, set_posted, mark_posted, charge,
  post_found, post,
}

abbrev pub is_final : DisputeState → Bool
is_final DisputeState.posted = true
is_final DisputeState.rejected = true
is_final _ = false

-- The ids are those of a key, and the row with this one is `d`.
pub record Holds (id : ℕ) (d : WeightDiscrepancy) (rows : List WeightDiscrepancy) : Type 0 where
  pub one : (k : ℕ) → count (has_id k) rows ≤ 1
  pub there : select (has_id id) rows ≡ some d

-- An update that leaves the ids and does not match the row.
update-Holds :
    (id : ℕ) (d : WeightDiscrepancy) (p : WeightDiscrepancy → Bool)
    (f : WeightDiscrepancy → WeightDiscrepancy) (rows : List WeightDiscrepancy)
    → ((k : ℕ) (x : WeightDiscrepancy) → has_id k (f x) ≡ has_id k x)
    → p d ≡ false
    → Holds id d rows
    → Holds id d (update p f rows)
update-Holds id d p f rows keep apart h = record {
  one = λ k. rw (count-update p (has_id k) f (keep k) rows) (h.one k);
  there = rw (select-update p (has_id id) f (keep id) rows) (rw (h.there, apart) refl);
}

raise-Holds :
    (fresh now id : ℕ) (d x : WeightDiscrepancy) (db : Db)
    → Holds id d db.rows
    → Holds id d (raise_discrepancy fresh now x db).1.rows
unfolding raise_discrepancy
raise-Holds fresh now id d x db h = elim (Bool-cases (any (has_id fresh) db.rows)) [
  | inl used ↦ rw used h
  | inr new ↦ rw new (record {
    one = λ k. elim (Bool-cases (fresh == k)) [
      | inr other ↦ rw other (omega (arith, h.one k))
      | inl same ↦
          let none_yet : count (has_id k) db.rows ≡ 0 =
            any→count (has_id fresh) (has_id k) (λ c hit. ground arith) db.rows new in
          rw (same, none_yet) (omega arith)
    ];
    there = elim (Bool-cases (fresh == id)) [
      | inr other ↦ rw other h.there
      | inl same ↦
          let seen =
            select→any (has_id fresh) (has_id id) (λ y hit. ground arith) d db.rows h.there in
          absurd (ground arith)
    ];
  })
]

module _ (dispute_text : ℕ → String) where
  marked-Holds :
      (down : Bool) (now id k : ℕ) (d : WeightDiscrepancy) (db : Db)
      (r : Result (Unit {0}) × pikship.Wallet.Rows.Db)
      → (d.id == k) ≡ false
      → Holds id d db.rows
      → Holds id d (mark_posted down now k db r).1.rows
  marked-Holds down now id k d db (err e, w) apart h = h
  marked-Holds true now id k d db (ok _, w) apart h = h
  marked-Holds false now id k d db (ok _, w) apart h =
      update-Holds id d (has_id k) (set_posted now) db.rows (λ j x. refl) apart h

  post-Holds :
      (down : Bool) (fresh now id k : ℕ) (d : WeightDiscrepancy) (db : Db)
      → is_final d.state ≡ true
      → Holds id d db.rows
      → Holds id d (post dispute_text down fresh now k db).1.rows
  unfolding post
  post-Holds down fresh now id k d db final h = elim (Option-cases (select (can_post k) db.rows)) [
    | inl gone ↦ rw gone h
    | inr (x, found) ↦ rw found (elim (Bool-cases (d.id == k)) [
      | inr apart ↦
          marked-Holds down now id k d db
            (charge dispute_text fresh k x.delta x.seller_id db.wallet) apart h
      | inl same ↦
          let is : d.id ≡ id = ==→≡ d.id id (select-holds (has_id id) d db.rows h.there) in
          let at : id ≡ k = sym is ∙ ==→≡ d.id k same in
          let wide : select (has_id k) db.rows ≡ some x =
            select-widen (has_id k) (can_post k) (λ y hit. ground arith) x db.rows (h.one k)
              found in
          let able = select-holds (can_post k) x db.rows found in
          let same_row : some x ≡ some d =
            sym wide ∙ ap (λ j. select (has_id j) db.rows) (sym at) ∙ h.there in
          absurd (ground arith)
    ])
  ]

  -- Calls of the service, on any rows and whether their last statement fails or not.
  pub data Reach (db : Db) : Db → Type 0 where
    here : Reach db db
    raises :
        {t : Db} (fresh now : ℕ) (x : WeightDiscrepancy)
        → Reach db t
        → Reach db (raise_discrepancy fresh now x t).1
    disputes :
        {t : Db} (now id : ℕ) (reason : String) (seller : ℕ)
        → Reach db t
        → Reach db (dispute now id reason seller t).1
    approves :
        {t : Db} (now id : ℕ) (reason : String) (by : ℕ)
        → Reach db t
        → Reach db (approve now id reason by t).1
    rejects :
        {t : Db} (now id : ℕ) (reason : String) (by : ℕ)
        → Reach db t
        → Reach db (reject now id reason by t).1
    posts :
        {t : Db} (down : Bool) (fresh now id : ℕ)
        → Reach db t
        → Reach db (post dispute_text down fresh now id t).1

  -- Where ids are unique, a discrepancy that is posted or rejected stays as it is, with all its
  -- columns, whatever calls of RaiseDiscrepancy, Dispute, Approve, Reject and Post follow, with a
  -- last statement that fails or not.
  pub Reach-Holds :
      {s t : Db} (id : ℕ) (d : WeightDiscrepancy)
      → is_final d.state ≡ true
      → Reach s t
      → Holds id d s.rows
      → Holds id d t.rows
  unfolding dispute approve reject
  Reach-Holds id d final here h = h
  Reach-Holds id d final (raises {t = t} fresh now x r) h =
      raise-Holds fresh now id d x t (Reach-Holds id d final r h)
  Reach-Holds id d final (disputes {t = t} now k reason seller r) h =
      update-Holds id d (can_dispute now k seller) (set_disputed now reason) t.rows (λ j x. refl)
        (ground arith) (Reach-Holds id d final r h)
  Reach-Holds id d final (approves {t = t} now k reason by r) h =
      update-Holds id d (can_decide k) (set_decided DisputeState.approved now reason by) t.rows
        (λ j x. refl) (ground arith) (Reach-Holds id d final r h)
  Reach-Holds id d final (rejects {t = t} now k reason by r) h =
      update-Holds id d (can_decide k) (set_decided DisputeState.rejected now reason by) t.rows
        (λ j x. refl) (ground arith) (Reach-Holds id d final r h)
  Reach-Holds id d final (posts {t = t} down fresh now k r) h =
      post-Holds down fresh now id k d t final (Reach-Holds id d final r h)

none_left :
    (now id : ℕ) (rows : List WeightDiscrepancy)
    → select (can_post id) (update (has_id id) (set_posted now) rows) ≡ none
none_left now id [] = refl
none_left now id (x ∷ xs) = ground (arith, none_left now id xs)

marked_left :
    (now id : ℕ) (db : Db) (r : Result (Unit {0}) × pikship.Wallet.Rows.Db)
    → (mark_posted false now id db r).0 ≡ ok tt
    → select (can_post id) (mark_posted false now id db r).1.rows ≡ none
marked_left now id db (err e, w) done = cc
marked_left now id db (ok _, w) done = none_left now id db.rows

module _ (dispute_text : ℕ → String) where
  found_left :
      (fresh now id : ℕ) (o : Option WeightDiscrepancy) (db : Db)
      → (post_found dispute_text false fresh now id o db).0 ≡ ok tt
      → select (can_post id) (post_found dispute_text false fresh now id o db).1.rows ≡ none
  found_left fresh now id none db done = cc
  found_left fresh now id (some d) db done =
      marked_left now id db (charge dispute_text fresh id d.delta d.seller_id db.wallet) done

  -- After a Post that succeeded, a Post of the same discrepancy finds nothing and changes nothing.
  pub post_once :
      (down : Bool) (fresh now later_fresh later id : ℕ) (db : Db)
      → (post dispute_text false fresh now id db).0 ≡ ok tt
      → post dispute_text down later_fresh later id (post dispute_text false fresh now id db).1
        ≡ (err not_found, (post dispute_text false fresh now id db).1)
  unfolding post
  post_once down fresh now later_fresh later id db done =
      rw (found_left fresh now id (select (can_post id) db.rows) db done) refl
