-- ===== src/Auth/Session/Store/Limit.antt =====
-- `create`: the limit on a user's sessions, and which rows it may cost.
use modo.Base.{
  ℕ, ◌-◌, ◌≡◌, ◌≤◌, refl, ◌∙◌, subst, Bool, true, false, not, Option, arith, Bool-cases, inl, inr,
  nat_eq, ==_refl,
}
use modo.Base.Lists.{any, count, filter, All, list_eq}
use modo.Base.Text.{Text, codes}
use modo.Base.Rows.{ascending}
use modo.Base.Rows.Counting.{count-delete_first, filter-delete}
use modo.Base.Rows.Keys.{IsIn, any-IsIn}
use modo.Base.Rows.Members.{
  IsIn-take, IsIn-sort, IsIn-filter, All-IsIn, any_no, delete_none, keys_unique-eq,
}
use modo.Base.Errors.{Result, ok, err}
use modo.Encoding.Bytes.{Bytes}
use modo.Auth.Session.Token.{SessionToken, hash}
use modo.Client.{ClientInfo}
use modo.Auth.Session.Store.{
  Outcome, done, failed, Serde, SessionData, SessionRow, Table, CookieSessionsConfig, row_id,
  session_limit, last_active, has_id, is_live_of, insert_row, excess, evict_excess, data_of, row_of,
  new_session, unwrap_or_object, trimmed, inserted, create,
}
use modo.Auth.Session.Store.WellFormed.{IsWellFormed}

-- The rows that eviction deletes.
abbrev pub is_evicted : ℕ → Text → ℕ → Table → SessionRow → Bool
is_evicted most user_id now t r = any (has_id (row_id r)) (excess most user_id now t)

pub IsIn-excess :
    (most : ℕ) (user_id : Text) (now : ℕ) (t : Table) (r : SessionRow)
    → IsIn r (excess most user_id now t)
    → IsIn r t × (is_live_of user_id now r ≡ true)
IsIn-excess most user_id now t r m = IsIn-filter (is_live_of user_id now) t r (
    IsIn-sort (ascending last_active) (filter (is_live_of user_id now) t) r
      (IsIn-take (count (is_live_of user_id now) t - most) _ r m))

evict_excess-limit :
    (most : ℕ) (user_id : Text) (now : ℕ) (t : Table)
    → count (is_live_of user_id now) (evict_excess most user_id now t) ≤ most
unfolding evict_excess
evict_excess-limit most user_id now t =
    let n = count (is_live_of user_id now) t - most in
    let all_gone : All (λ r. is_evicted most user_id now t r ≡ true) (excess most user_id now t) =
      All-IsIn (excess most user_id now t) (λ r m.
        any-IsIn (has_id (row_id r)) (excess most user_id now t) r m (==_refl (row_id r))) in
    let bound =
      count-delete_first (ascending last_active) (is_evicted most user_id now t)
        (is_live_of user_id now) n t all_gone in
    omega (arith, bound)

-- A row of the table that is not selected is not deleted, since no other row has its identifier.
pub is_evicted-other :
    (most : ℕ) (user_id : Text) (now : ℕ) (t : Table) (r : SessionRow)
    → IsWellFormed t
    → IsIn r t
    → is_live_of user_id now r ≡ false
    → is_evicted most user_id now t r ≡ false
is_evicted-other most user_id now t r (i, u) m other =
    any_no (has_id (row_id r)) (excess most user_id now t) (λ s n.
      let (n', live) = IsIn-excess most user_id now t s n in
      elim (Bool-cases (has_id (row_id r) s)) [
        | inl same ↦
            let e : s ≡ r = keys_unique-eq row_id t s r i n' m same in
            let clash : is_live_of user_id now r ≡ true =
              subst (λ x. is_live_of user_id now x ≡ true) e live in
            absurd (ground arith)
        | inr differ ↦ differ
      ])

-- Rows that are not the user's active ones stay.
pub evict_excess-others :
    (most : ℕ) (user_id : Text) (now : ℕ) (t : Table)
    → IsWellFormed t
    → filter (λ r. not (is_live_of user_id now r)) (evict_excess most user_id now t)
      ≡ filter (λ r. not (is_live_of user_id now r)) t
unfolding evict_excess
evict_excess-others most user_id now t w =
    let other : SessionRow → Bool = λ r. not (is_live_of user_id now r) in
    filter-delete (is_evicted most user_id now t) other t
    ∙ delete_none (is_evicted most user_id now t) (filter other t) (
        All-IsIn (filter other t) (λ r m.
          let (n, h) = IsIn-filter other t r m in
          is_evicted-other most user_id now t r w n (ground arith)))

module _ (violation : Text) (serde : Serde) (config : CookieSessionsConfig)
    (digest : Bytes → Bytes) where
  abbrev pub Created : Type 0
  Created = Result (SessionData serde.Value × SessionToken) × Table

  trimmed-eq-ok :
      (s s' : SessionData serde.Value) (g g' : SessionToken) (t : Table) (o : Result Table)
      (t' : Table)
      → ◌≡◌ {A = Created} (trimmed violation serde config s g t o) (ok (s', g'), t')
      → (t₁ : Table) × (o ≡ ok t₁)
        × (s ≡ s')
        × (g ≡ g')
        × (evict_excess (session_limit config) s.user_id s.created_at t₁ ≡ t')
  trimmed-eq-ok s s' g g' t (err e) t' h = cc
  trimmed-eq-ok s s' g g' t (ok t₁) t' h = (t₁, refl, cc, cc, cc)

  inserted-eq-ok :
      (s s' : SessionData serde.Value) (g g' : SessionToken) (o : Outcome Text) (t t' : Table)
      → ◌≡◌ {A = Created}
          (inserted violation serde config digest s g
            (data_of (codes "serialize session data: ") o)
            t)
          (ok (s', g'), t')
      → (text : Text) × (t₁ : Table) × (o ≡ done text)
        × (insert_row violation (row_of serde s text (hash digest g)) t ≡ ok t₁)
        × (s ≡ s')
        × (g ≡ g')
        × (evict_excess (session_limit config) s.user_id s.created_at t₁ ≡ t')
  inserted-eq-ok s s' g g' (failed e) t t' h = cc
  inserted-eq-ok s s' g g' (done text) t t' h =
      let (t₁, e, same, token_same, left) = trimmed-eq-ok s s' g g' t _ t' h in
      (text, t₁, refl, e, same, token_same, left)

  -- What a creation that succeeds has done: the row inserted last, then the user's excess rows deleted.
  pub create-eq-ok :
      (info : ClientInfo) (user_id : Text) (json : Option serde.Value) (id : Text)
      (generated : SessionToken) (now : ℕ) (t t' : Table) (s : SessionData serde.Value)
      (g : SessionToken)
      → ◌≡◌ {A = Created}
          (create violation serde config digest info user_id json id generated now t)
          (ok (s, g), t')
      → (text : Text) × (t₁ : Table) × (serde.to_string (unwrap_or_object serde json) ≡ done text)
        × (insert_row violation (row_of serde s text (hash digest g)) t ≡ ok t₁)
        × (new_session serde config info user_id (unwrap_or_object serde json) id now ≡ s)
        × (generated ≡ g)
        × (evict_excess (session_limit config) user_id now t₁ ≡ t')
  unfolding create
  create-eq-ok info user_id json id generated now t t' s g h =
      let value = unwrap_or_object serde json in
      let fresh = new_session serde config info user_id value id now in
      let (text, t₁, o, e, same, token_same, left) =
        inserted-eq-ok fresh s generated g (serde.to_string value) t t' h in
      (
        text,
        t₁,
        o,
        subst (λ x. insert_row violation (row_of serde x text (hash digest g)) t ≡ ok t₁) same
            (subst (λ x. insert_row violation (row_of serde fresh text (hash digest x)) t ≡ ok t₁)
              token_same e),
        same,
        token_same,
        left,
      )

  -- When `create` succeeds, the user has at most `max_sessions_per_user` active sessions.
  pub create-limit :
      (info : ClientInfo) (user_id : Text) (json : Option serde.Value) (id : Text)
      (generated : SessionToken) (now : ℕ) (t t' : Table) (s : SessionData serde.Value)
      (g : SessionToken)
      → ◌≡◌ {A = Created}
          (create violation serde config digest info user_id json id generated now t)
          (ok (s, g), t')
      → count (is_live_of user_id now) t' ≤ config.max_sessions_per_user
  create-limit info user_id json id generated now t t' s g h =
      let (text, t₁, o, e, same, token_same, left) =
        create-eq-ok info user_id json id generated now t t' s g h in
      let few : count (is_live_of user_id now) t' ≤ session_limit config =
        subst (λ x. count (is_live_of user_id now) x ≤ session_limit config) left
          (evict_excess-limit (session_limit config) user_id now t₁) in
      let most : session_limit config ≤ config.max_sessions_per_user = ground arith in
      omega (arith, few, most)
