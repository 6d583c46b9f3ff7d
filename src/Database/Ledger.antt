-- ===== src/Database/Ledger.antt =====
-- What the counters of a client's messages and the counts of references have to be, src/database.c, and
-- what a message that is removed does to them.
use dimq.Prelude.{
  ◌∙◌, sym, ap, Bool-cases, ==_iff, ◌==◌, ◌%◌, ltb, ◌<◌, length, if◌then◌else◌, List, [], ◌∷◌, ℕ,
  suc, ◌+◌, ◌≡◌, refl, true, some, arith, inl, inr,
}
use dimq.Database.{ClientMsg, MsgData, Stored, Db, int_sub}
use dimq.Database.Store.{put_stored, msg_store_remove, msg_store_ref_dec}
use dimq.Database.Send.{message_remove, uncount}
use dimq.Database.Counts.{
  refs, AreDistinct, refs-drop, refs-put, find_stored-same, refs-find, find_stored-refs,
  drop-AreDistinct, put-AreDistinct,
}

-- One reference less to the entry `id`
abbrev pub IsReleased : ℕ → List Stored → List Stored → Type 0
IsReleased id st st' =
    ((x : ℕ) → refs x st' + (if id == x then 1 else 0) ≡ refs x st) × AreDistinct st'

pub ref_dec-IsReleased :
    (id : ℕ) (db : Db)
    → AreDistinct db.msg_store
    → 0 < refs id db.msg_store
    → refs id db.msg_store < 4294967296
    → (db' : Db) × (msg_store_ref_dec id db ≡ some db') × IsReleased id db.msg_store db'.msg_store
unfolding msg_store_ref_dec msg_store_remove
ref_dec-IsReleased id db d lt small =
    let st = db.msg_store in
    let (s, e) = find_stored-refs id st lt in
    let same = find_stored-same id st s e in
    let count = refs-find id st s e in
    let n = int_sub s.ref_count 1 in
    let less : suc n ≡ refs id st = omega (arith, lt, small, count) in
    elim (Bool-cases (n == 0)) [
      | inl z ↦ (
        msg_store_remove s db,
        rw (msg_store_ref_dec, e, z) refl,
        (
          (λ x. elim (Bool-cases (id == x)) [
            | inl u ↦
                let one : refs x st ≡ 1 =
                  ap (λ i. refs i st) (sym (eq_of u)) ∙ omega (arith, less, zero_of z) in
                rw (refs-drop x s.db_id st d, same, u, one) refl
            | inr u ↦ rw (refs-drop x s.db_id st d, same, u) (omega arith)
          ]),
          drop-AreDistinct s.db_id st d,
        ),
      )
      | inr z ↦ (
        record db { msg_store = put_stored id (record s { ref_count = n }) st },
        rw (msg_store_ref_dec, e, z) refl,
        (
          (λ x. elim (Bool-cases (id == x)) [
            | inl u ↦
                let all : refs x st ≡ suc n = ap (λ i. refs i st) (sym (eq_of u)) ∙ sym less in
                rw (refs-put x id (record s { ref_count = n }) s st same e, u, all) (omega arith)
            | inr u ↦ rw (refs-put x id (record s { ref_count = n }) s st same e, u) (omega arith)
          ]),
          put-AreDistinct id (record s { ref_count = n }) st same d,
        ),
      )
    ]
  where
    eq_of : {a b : ℕ} → (a == b) ≡ true → a ≡ b
    eq_of {a} {b} t = (==_iff a b).0 t

    zero_of : {a : ℕ} → (a == 0) ≡ true → a ≡ 0
    zero_of {a} t = (==_iff a 0).0 t

-- The references to the entry `x` from a list of messages
unfoldable pub holds : ℕ → List ClientMsg → ℕ
holds x [] = 0
holds x (m ∷ ms) = (if m.store == x then 1 else 0) + holds x ms

-- The messages of a list with a QoS above 0
unfoldable pub number12 : List ClientMsg → ℕ
number12 [] = 0
number12 (m ∷ ms) = (if ltb 0 m.qos then 1 else 0) + number12 ms

-- The counters `msg_count` and `msg_count12` are those of the two lists of messages. The count of an
-- entry of the store is the number of references to it, those from the lists and those from elsewhere.
pub record IsSound (elsewhere : ℕ → ℕ) (others ms : List ClientMsg) (d : MsgData) (db : Db)
    : Type 0 where
  pub count : d.msg_count ≡ (length others + length ms) % 4294967296
  pub count12 : d.msg_count12 ≡ (number12 others + number12 ms) % 4294967296
  pub counted : (x : ℕ) → refs x db.msg_store ≡ elsewhere x + (holds x others + holds x ms)
  pub small : (x : ℕ) → refs x db.msg_store < 4294967296
  pub distinct : AreDistinct db.msg_store

pub message_remove-IsSound :
    (m : ClientMsg) (elsewhere : ℕ → ℕ) (others ms : List ClientMsg) (d : MsgData) (db : Db)
    → IsSound elsewhere others (m ∷ ms) d db
    → (d' : MsgData) × (db' : Db) × (len : ℕ) × (message_remove m d db ≡ some (d', db'))
      × (d' ≡ uncount m len d)
      × IsSound elsewhere others ms d' db'
unfolding message_remove holds number12
message_remove-IsSound m elsewhere others ms d db ok =
    let st = db.msg_store in
    let held = ok.counted m.store in
    let lt : 0 < refs m.store st = ground (arith, held) in
    let (s, e) = find_stored-refs m.store st lt in
    let (db', dec, (released, distinct)) =
      ref_dec-IsReleased m.store db ok.distinct lt (ok.small m.store) in
    (
      uncount m s.payloadlen d,
      db',
      s.payloadlen,
      rw (message_remove, e, dec) refl,
      refl,
      record {
        count = omega (arith, ok.count);
        count12 = ground (arith, ok.count12);
        counted = λ x. ground (arith, released x, ok.counted x);
        small = λ x. omega (arith, released x, ok.small x);
        distinct = distinct;
      },
    )
