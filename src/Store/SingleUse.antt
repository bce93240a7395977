-- ===== src/Store/SingleUse.antt =====
-- About `ConsumeAuthCode` of internal/store/store.go.
use sir_auth.Base.{
  ℕ, suc, ◌/◌, ◌≤◌, String, true, false, ◌≡◌, refl, ◌≢◌, inl, inr, Option, none, some, List, [],
  ◌∷◌, find, count_if, update_if, arith, eq_iff, Bool-cases,
}
use sir_auth.Base.Rows.{Mem, All, find_sound, find-mem, All-mem}
use sir_auth.Model.{AuthCode}
use sir_auth.World.{
  Db, World, M, next, Result, failed, ok, db_read, db_write, now_unix, second, Fate, read_result,
  tick,
}
use sir_auth.Store.Codes.{
  Consumed, consumed, has_code, is_claimable, mark_used, claim_code_sql, claim_code, look_up,
  consume_auth_code,
}

-- Every row with this code is used.
abbrev pub Spent : String → Db → Type 0
Spent code d = All (λ c. c.code ≡ code → c.used ≡ true) d.auth_codes

-- No row with this code can be claimed once it is spent, whatever the time.
Spent-count :
    (code : String) (now : ℕ) (cs : List AuthCode)
    → All (λ c. c.code ≡ code → c.used ≡ true) cs
    → count_if (is_claimable code now) cs ≡ 0
unfolding count_if
Spent-count code now [] h = refl
Spent-count code now (c ∷ cs) (h, hs) =
    ground (arith, eq_iff c.code code, h, Spent-count code now cs hs)

-- The primary key of the table: at most one row has a given code.
abbrev pub UniqueCodes : Db → Type 0
UniqueCodes d = (code : String) → count_if (has_code code) d.auth_codes ≤ 1

module _ (code : String) (now : ℕ) where
  no_row-Spent :
      (cs : List AuthCode)
      → count_if (has_code code) cs ≡ 0
      → All (λ c. c.code ≡ code → c.used ≡ true) (update_if (is_claimable code now) mark_used cs)
  unfolding count_if update_if
  no_row-Spent [] h = tt
  no_row-Spent (c ∷ cs) h =
      (ground (arith, eq_iff c.code code), no_row-Spent cs (ground (arith, eq_iff c.code code)))

  pub claimable-le :
      (cs : List AuthCode) → count_if (is_claimable code now) cs ≤ count_if (has_code code) cs
  unfolding count_if
  claimable-le [] = omega arith
  claimable-le (c ∷ cs) = ground (arith, claimable-le cs)

  claimed-Spent :
      (cs : List AuthCode)
      → count_if (has_code code) cs ≤ 1
      → count_if (is_claimable code now) cs ≡ 1
      → All (λ c. c.code ≡ code → c.used ≡ true) (update_if (is_claimable code now) mark_used cs)
  unfolding count_if update_if
  claimed-Spent [] u h = absurd (omega arith)
  claimed-Spent (c ∷ cs) u h = elim (Bool-cases (has_code code c)) [
    | inl e ↦
        let rest : count_if (has_code code) cs ≡ 0 = ground arith in
        let none_here : count_if (is_claimable code now) cs ≤ 0 = omega (arith, claimable-le cs) in
        (ground (arith, eq_iff c.code code), no_row-Spent cs rest)
    | inr e ↦ (ground (arith, eq_iff c.code code), claimed-Spent cs (ground arith) (ground arith))
  ]

-- The conditional UPDATE reported one row, in a table with its primary key: the code is spent.
claim_code-Spent :
    (code : String) (c c' : AuthCode) (w w' : World)
    → UniqueCodes w.db
    → claim_code code c w ≡ next (consumed c') w'
    → Spent code w'.db
unfolding claim_code claim_code_sql db_write now_unix
claim_code-Spent code c c' w w' u e =
    ground (arith, claimed-Spent code (w.outside.clock w.calls / second) w.db.auth_codes (u code))

-- The row that a consumed code came from.
pub record IsFirstUse (code : String) (c : AuthCode) (w w' : World) : Type 0 where
  pub row : AuthCode
  pub listed : Mem row w.db.auth_codes
  pub same_code : row.code ≡ code
  pub unused : row.used ≡ false
  pub in_time : w.outside.clock (suc w.calls) / second ≤ row.expires_at
  pub result : c ≡ mark_used row
  pub spent : Spent code w'.db
  pub same_users : w'.db.users ≡ w.db.users
  pub same_clients : w'.db.clients ≡ w.db.clients
  pub same_outside : w'.outside ≡ w.outside

look_up-inv :
    (o : Result (Option AuthCode)) (f : AuthCode → M Consumed) (w w' : World) (c : AuthCode)
    → look_up o f w ≡ next (consumed c) w'
    → (row : AuthCode) × (o ≡ ok (some row)) × (f row w ≡ next (consumed c) w')
look_up-inv failed f w w' c e = cc
look_up-inv (ok none) f w w' c e = cc
look_up-inv (ok (some row)) f w w' c e = (row, refl, e)

pub read-ok : {A : Type 0} (f : Fate) (a b : A) → read_result f a ≡ ok b → a ≡ b
read-ok Fate.answered a b e = cc
read-ok Fate.refused a b e = cc
read-ok Fate.lost a b e = cc

claim_code-frame :
    (code : String) (row c : AuthCode) (w w' : World)
    → claim_code code row w ≡ next (consumed c) w'
    → (c ≡ mark_used row)
      × (w'.db.users ≡ w.db.users)
      × (w'.db.clients ≡ w.db.clients)
      × (w'.outside ≡ w.outside)
unfolding claim_code claim_code_sql db_write now_unix
claim_code-frame code row c w w' e = ground arith

-- A code that is consumed was unused, and is spent afterwards.
pub consume_auth_code-IsFirstUse :
    (code : String) (c : AuthCode) (w w' : World)
    → UniqueCodes w.db
    → consume_auth_code code w ≡ next (consumed c) w'
    → IsFirstUse code c w w'
unfolding consume_auth_code db_read now_unix
consume_auth_code-IsFirstUse code c w w' u e =
    let (row, found, e₁) = look_up-inv _ _ (tick w) w' c e in
    let is_row : find (has_code code) w.db.auth_codes ≡ some row =
      read-ok (w.outside.fate w.calls) _ _ found in
    let w₂ : World = tick (tick w) in
    let unused : row.used ≡ false = ground arith in
    let e₂ : claim_code code row w₂ ≡ next (consumed c) w' = ground arith in
    let (result, same_users, same_clients, same_outside) = claim_code-frame code row c w₂ w' e₂ in
    record {
      row = row;
      listed = find-mem (has_code code) w.db.auth_codes row is_row;
      same_code = (eq_iff row.code code).0 (find_sound (has_code code) w.db.auth_codes row is_row);
      unused = unused;
      in_time = ground arith;
      same_outside = same_outside;
      result = result;
      spent = claim_code-Spent code row c w₂ w' u e₂;
      same_users = same_users;
      same_clients = same_clients;
    }

-- A spent code is never consumed again, whenever it is tried.
pub Spent-consume_auth_code :
    (code : String) (c : AuthCode) (w w' : World)
    → Spent code w.db
    → consume_auth_code code w ≢ next (consumed c) w'
unfolding consume_auth_code db_read now_unix
Spent-consume_auth_code code c w w' s e =
    let (row, found, e₁) = look_up-inv _ _ (tick w) w' c e in
    let is_row : find (has_code code) w.db.auth_codes ≡ some row =
      read-ok (w.outside.fate w.calls) _ _ found in
    let used : row.used ≡ true =
      All-mem (λ c. c.code ≡ code → c.used ≡ true) w.db.auth_codes row s
        (find-mem (has_code code) w.db.auth_codes row is_row)
        ((eq_iff row.code code).0 (find_sound (has_code code) w.db.auth_codes row is_row)) in
    ground arith
