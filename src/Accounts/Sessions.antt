-- ===== src/Accounts/Sessions.antt =====
-- Which sessions internal/auth/service.go accepts, and what keeps its user names apart.
use triovexa.Prelude.{
  ℕ, suc, ◌<◌, String, true, false, ◌≡◌, ◌≢◌, refl, sym, ap, ◌∙◌, Option, Option-cases, none, some,
  inl, inr, Bool-cases, arith, get, put, get-put, get-put_self, get-delete, eq_iff, str_eq, ltb,
  if◌then◌else◌, trim_space, Map, [], ◌∷◌, subst,
}
use triovexa.Domain.{Time, User, Session}
use triovexa.Storage.{MemoryStore}
use triovexa.Storage.Accounts.{
  find_name, create_user, get_session, live_session, get_user, delete_session, create_session,
  get_user_by_username,
}
use triovexa.World.{World, Env, ok, final, ◌>>=◌, pure, fetch, guard, modify, now}
use triovexa.World.Within.{Within, IsFrame, within_rules}
use triovexa.World.Ensures.{
  Within-Ensures, modify-Ensures, Ensures, bind-Ensures, guard-Ensures, fetch-Ensures, pure-Ensures,
  now-then, weaken-Ensures,
}
use triovexa.Accounts.Passwords.{Crypto, verify_password}
use triovexa.Accounts.{
  SessionGrant, login, session_of, random_token, random_bytes, without_hash, token_hash,
  authenticate, logout,
}

module _ (fold : String → String) where
  -- No two users have the same name, by strings.EqualFold.
  pub record HasUniqueNames (s : MemoryStore) : Type 0 where
    pub at :
        (i j : String) (u v : User)
        → get_user i s ≡ some u
        → get_user j s ≡ some v
        → fold u.username ≡ fold v.username
        → i ≡ j

  find_name-none :
      (name i : String) (u : User) (m : Map User)
      → find_name fold name m ≡ none
      → get i m ≡ some u
      → fold u.username ≢ fold name
  unfolding find_name get
  find_name-none name i u [] h e = λ q. cc
  find_name-none name i u ((j, v) ∷ m) h e =
      λ q. ground (arith, eq_iff (fold v.username) (fold name), find_name-none name i u m, q)

  -- A user is stored only if no user has the name, so no two users ever have the same name.
  pub create_user-HasUniqueNames :
      (user : User) (s t : MemoryStore)
      → create_user fold user s ≡ some t
      → HasUniqueNames s
      → HasUniqueNames t
  unfolding create_user get_user
  create_user-HasUniqueNames user s t h unique =
      elim (Option-cases (find_name fold user.username s.users)) [
        | inr (old, e) ↦ absurd (ground (arith, e, h))
        | inl n ↦ record {
          at = λ i j u v p q same.
              let users : t.users ≡ put user.id user s.users = ground (arith, n, h) in
              let p' : (if str_eq user.id i then some user else get i s.users) ≡ some u =
                sym (ap (get i) users ∙ get-put user.id i user s.users) ∙ p in
              let q' : (if str_eq user.id j then some user else get j s.users) ≡ some v =
                sym (ap (get j) users ∙ get-put user.id j user s.users) ∙ q in
              ground (
                arith,
                eq_iff user.id i,
                eq_iff user.id j,
                find_name-none user.username i u s.users n,
                find_name-none user.username j v s.users n,
                unique.at i j u v,
                p',
                q',
                same,
              );
        }
      ]

-- What is known of an answer: the token's session is stored and has not ended at two readings of the
-- clock, and the user is the session's, without the hash of the password.
pub record IsLive (env : Env) (a : Crypto) (token : String) (w : World) (answer : User × Session)
    : Type 0 where
  pub stored : get (token_hash env a token) w.store.sessions ≡ some answer.1
  pub user : User
  pub user_stored : get_user answer.1.user_id w.store ≡ some user
  pub shown : answer.0 ≡ without_hash user
  pub not_ended : env.clock w.reads < answer.1.expires_at
  pub not_ended_after : env.clock (suc w.reads) < answer.1.expires_at

module _ (env : Env) (a : Crypto) where
  live :
      (at : Time) (o : Option Session) (s : Session)
      → live_session at o ≡ some s
      → (o ≡ some s) × (ltb at s.expires_at ≡ true)
  unfolding live_session
  live at none s h = absurd (cc h)
  live at (some r) s h = elim (Bool-cases (ltb at r.expires_at)) [
    | inl e ↦
        let q : some r ≡ some s = ground (arith, e, h) in
        let same : r ≡ s = ground (arith, q) in
        (q, subst (λ (x : Session). ltb at x.expires_at ≡ true) same e)
    | inr e ↦ absurd (ground (arith, e, h))
  ]

  -- If a token is accepted, its session is stored and has not ended, and the answer is the session's user
  -- without the hash of the password.
  pub authenticate-IsLive :
      (token : String) (w : World)
      → Ensures (authenticate env a token) w (λ answer _. IsLive env a token w answer)
  unfolding authenticate get_session
  authenticate-IsLive token w = bind-Ensures _ _ (
      guard-Ensures _ _ λ named. now-then env _ (
        bind-Ensures _ _ (
          fetch-Ensures _ _ λ session found. now-then env _ (
            bind-Ensures _ _ (
              guard-Ensures _ _ λ later. bind-Ensures _ _ (
                fetch-Ensures _ _ λ user has_user. pure-Ensures _ (
                  let l = live (env.clock w.reads) _ session found in
                  record {
                    stored = l.0;
                    user = user;
                    user_stored = has_user;
                    shown = refl;
                    not_ended = ground (arith, l.1);
                    not_ended_after = ground (arith, later);
                  })))))))

  -- After a logout no answer is given for the token any more, whenever it is asked for.
  pub logout-authenticate :
      (token : String) (w : World) (reads : ℕ)
      → token ≢ ""
      → Ensures
          (authenticate env a token)
          (record (final (logout env a token w)) { reads = reads })
          (λ _ _. ⊥)
  logout-authenticate token w reads h =
      weaken-Ensures
        (λ answer _.
          IsLive env a token (record (final (logout env a token w)) { reads = reads }) answer)
        _ (authenticate-IsLive token _) λ answer u l. absurd (ground (arith, l.stored, gone))
    where
      gone : get (token_hash env a token) (final (logout env a token w)).store.sessions ≡ none
      gone =
          unfold logout in
          unfold modify in
          unfold delete_session in
          ground (
            arith,
            eq_iff token "",
            eq_iff (token_hash env a token) (token_hash env a token),
            get-delete (token_hash env a token) (token_hash env a token) w.store.sessions,
            h,
          )

SameStore : World → World → Type 0
SameStore v w = w.store ≡ v.store

SameStore-frame : IsFrame SameStore
unfolding SameStore
SameStore-frame = record {
  stay = λ w. refl;
  chain = λ u v w h k. k ∙ h;
  skip_reads = λ w n later. refl;
  skip_ids = λ w n. refl;
}

-- What a login leaves: a session under the token's hash, of the user who has the name and the password.
record IsGranted (env : Env) (a : Crypto) (username password : String) (w : World)
    (g : SessionGrant) (v : World) : Type 0 where
  user : User
  found : get_user_by_username a.fold_case (trim_space username) w.store ≡ some user
  verified : verify_password a password user.password_hash ≡ true
  session : Session
  stored : get (token_hash env a g.token) v.store.sessions ≡ some session
  is_of : session.user_id ≡ user.id
  ends : session.expires_at ≡ g.expires_at
  same_users : v.store.users ≡ w.store.users
  shown : g.user ≡ without_hash user

module _ (env : Env) (a : Crypto) where
  random_token-SameStore : (n : ℕ) → Within SameStore (random_token env a n)
  unfolding random_token random_bytes
  random_token-SameStore n = search (within_rules, SameStore-frame) depth 16

  login-IsGranted :
      (ttl : Time) (username password : String) (w : World)
      → Ensures (login env a ttl username password) w (IsGranted env a username password w)
  unfolding login SameStore create_session
  login-IsGranted ttl username password w = bind-Ensures _ _ (
      fetch-Ensures _ _ λ user found. bind-Ensures _ _ (
        guard-Ensures _ _ λ verified. bind-Ensures _ _ (
          Within-Ensures SameStore _ (random_token-SameStore 32) λ token u same. bind-Ensures _ _ (
            Within-Ensures SameStore _ (random_token-SameStore 24) λ csrf v again. now-then env _ (
              bind-Ensures _ _ (
                modify-Ensures _ (
                  pure-Ensures _ (record {
                    user = user;
                    found = found;
                    verified = verified;
                    session = session_of env a ttl user token csrf (env.clock v.reads);
                    stored = get-put_self (token_hash env a token) _ v.store.sessions;
                    is_of = refl;
                    ends = refl;
                    same_users = ap (λ (s : MemoryStore). s.users) (again ∙ same);
                    shown = refl;
                  }))))))))

  -- An accepted token.
  pub record SignedIn (g : SessionGrant) (w : World) : Type 0 where
    pub session : Session
    pub accepted :
        authenticate env a g.token w ≡ ok (g.user, session) (record w { reads = suc (suc w.reads) })

  -- After a login its token is accepted as the user's until the session ends, where the users are stored
  -- under their ids and the token is not blank.
  pub login-authenticate :
      (ttl : Time) (username password : String) (w v : World) (g : SessionGrant) (reads : ℕ)
      → login env a ttl username password w ≡ ok g v
      → ((u : User)
          → get_user_by_username a.fold_case (trim_space username) w.store ≡ some u
          → get_user u.id w.store ≡ some u)
      → trim_space g.token ≢ ""
      → env.clock reads < g.expires_at
      → env.clock (suc reads) < g.expires_at
      → SignedIn g (record v { reads = reads })
  unfolding authenticate ◌>>=◌ guard now fetch get_session live_session pure get_user
  login-authenticate ttl username password w v g reads h keyed named soon later =
      let i = (login-IsGranted ttl username password w).at g v h in
      let blank : str_eq (trim_space g.token) "" ≡ false =
        ground (arith, eq_iff (trim_space g.token) "", named) in
      let early : ltb (env.clock reads) i.session.expires_at ≡ true =
        ground (arith, i.ends, soon) in
      let late : ltb (env.clock (suc reads)) i.session.expires_at ≡ true =
        ground (arith, i.ends, later) in
      let owner : get i.session.user_id v.store.users ≡ some i.user =
        ap (λ m. get i.session.user_id m) i.same_users
        ∙ ap (λ k. get k w.store.users) i.is_of
        ∙ keyed i.user i.found in
      record {
        session = i.session;
        accepted = ground (arith, blank, i.stored, early, late, owner, i.shown);
      }
