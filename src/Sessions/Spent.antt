-- ===== src/Sessions/Spent.antt =====
-- A refresh token that was exchanged or revoked is never accepted again
-- (server/pkg/redisstore/refresh_store.go).
use farm_server.Base.{
  ℕ, ◌≡◌, ◌≢◌, ◌⊎◌, refl, ap, subst, arith, inl, inr, Bool, false, String, List, [], ◌∷◌, Option,
  none, some, eq_iff, All,
}
use farm_server.Errors.{Result, ok, err, coded, auth_unauthorized}
use farm_server.Sessions.{
  Redis, set_key, create, bound_user, replace_token, rotate, migrate_legacy, owns_session,
  delete_session, after_rotation, refresh_session, logout,
}

-- What may happen to the store between two uses of a token.
pub data Operation : Type 0 where
  creates : String → String → ℕ → Operation
  refreshes logs_out : String → String → String → Operation
  session_expires token_expires : String → Operation

module _ (hash : String → String) (is_blank : String → Bool) where
  unfoldable pub after : Operation → Redis → Redis
  after (creates sid token user) r = create sid (hash token) user r
  after (refreshes sid token new_token) r = (refresh_session hash is_blank sid token new_token r).1
  after (logs_out sid token unused) r = (logout hash is_blank sid token r).1
  after (session_expires sid) r = record r { sessions = set_key sid none r.sessions }
  after (token_expires h) r = record r { refresh = set_key h none r.refresh }

  unfoldable pub run : List Operation → Redis → Redis
  run [] r = r
  run (o ∷ os) r = run os (after o r)

  -- Drawn tokens are fresh: their hash is not `h`.
  abbrev pub Avoids : String → Operation → Type 0
  Avoids h (creates sid token user) = hash token ≢ h
  Avoids h (refreshes sid token new_token) = hash new_token ≢ h
  Avoids h _ = Unit {0}

  rotate-refresh :
      (sid old new h : String) (r : Redis)
      → new ≢ h
      → r.refresh h ≡ none
      → (rotate sid old new r).1.refresh h ≡ none
  unfolding rotate replace_token
  rotate-refresh sid old new h r n e = ground (arith, eq_iff h new, eq_iff h old)

  migrate-refresh :
      (sid old new h : String) (r : Redis)
      → new ≢ h
      → r.refresh h ≡ none
      → (migrate_legacy sid old new r).1.refresh h ≡ none
  unfolding migrate_legacy replace_token
  migrate-refresh sid old new h r n e = ground (arith, eq_iff h new, eq_iff h old)

  delete-refresh :
      (sid old h : String) (r : Redis)
      → r.refresh h ≡ none
      → (delete_session sid old r).1.refresh h ≡ none
  unfolding delete_session
  delete-refresh sid old h r e = ground (arith, eq_iff h old)

  after_rotation-refresh :
      (sid old new h : String) (p : Option ℕ × Redis)
      → new ≢ h
      → p.1.refresh h ≡ none
      → (after_rotation hash is_blank sid old new p).1.refresh h ≡ none
  unfolding after_rotation
  after_rotation-refresh sid old new h (some user, r) n e = e
  after_rotation-refresh sid old new h (none, r) n e =
      ground (arith, migrate-refresh sid old new h r n e)

  refresh-refresh :
      (sid token new_token h : String) (r : Redis)
      → hash new_token ≢ h
      → r.refresh h ≡ none
      → (refresh_session hash is_blank sid token new_token r).1.refresh h ≡ none
  unfolding refresh_session
  refresh-refresh sid token new_token h r n e = ground (
    arith,
    after_rotation-refresh sid (hash token) (hash new_token) h
        (rotate sid (hash token) (hash new_token) r) n
        (rotate-refresh sid (hash token) (hash new_token) h r n e),
  )

  logout-refresh :
      (sid token h : String) (r : Redis)
      → r.refresh h ≡ none
      → (logout hash is_blank sid token r).1.refresh h ≡ none
  unfolding logout
  logout-refresh sid token h r e = ground (arith, delete-refresh sid (hash token) h r e)

  after-refresh :
      (o : Operation) (h : String) (r : Redis)
      → Avoids h o
      → r.refresh h ≡ none
      → (after o r).refresh h ≡ none
  unfolding after create
  after-refresh (creates sid token user) h r n e = ground (arith, eq_iff h (hash token))
  after-refresh (refreshes sid token new_token) h r n e =
      refresh-refresh sid token new_token h r n e
  after-refresh (logs_out sid token unused) h r n e = logout-refresh sid token h r e
  after-refresh (session_expires sid) h r n e = e
  after-refresh (token_expires k) h r n e = ground arith

  run-refresh :
      (os : List Operation) (h : String) (r : Redis)
      → All (Avoids h) os
      → r.refresh h ≡ none
      → (run os r).refresh h ≡ none
  unfolding run
  run-refresh [] h r n e = e
  run-refresh (o ∷ os) h r n e = run-refresh os h (after o r) n.1 (after-refresh o h r n.0 e)

  -- An exchange and a revocation delete the key of the token.
  rotate-deletes :
      (sid old new : String) (r : Redis) (u : ℕ)
      → new ≢ old
      → (rotate sid old new r).0 ≡ some u
      → (rotate sid old new r).1.refresh old ≡ none
  unfolding rotate replace_token
  rotate-deletes sid old new r u n e = ground (arith, eq_iff old new, eq_iff old old)

  migrate-deletes :
      (sid old new : String) (r : Redis) (u : ℕ)
      → new ≢ old
      → (migrate_legacy sid old new r).0 ≡ some u
      → (migrate_legacy sid old new r).1.refresh old ≡ none
  unfolding migrate_legacy replace_token
  migrate-deletes sid old new r u n e = ground (arith, eq_iff old new, eq_iff old old)

  after_rotation-deletes :
      (sid old new : String) (p : Option ℕ × Redis) (u : ℕ)
      → new ≢ old
      → ((v : ℕ) → p.0 ≡ some v → p.1.refresh old ≡ none)
      → (after_rotation hash is_blank sid old new p).0 ≡ ok u
      → (after_rotation hash is_blank sid old new p).1.refresh old ≡ none
  unfolding after_rotation
  after_rotation-deletes sid old new (some user, r) u n spent e = spent user refl
  after_rotation-deletes sid old new (none, r) u n spent e =
      ground (arith, migrate-deletes sid old new r u n)

  refresh-deletes :
      (sid token new_token : String) (r : Redis) (u : ℕ)
      → hash new_token ≢ hash token
      → (refresh_session hash is_blank sid token new_token r).0 ≡ ok u
      → (refresh_session hash is_blank sid token new_token r).1.refresh (hash token) ≡ none
  unfolding refresh_session
  refresh-deletes sid token new_token r u n e = ground (
    arith,
    after_rotation-deletes sid (hash token) (hash new_token)
        (rotate sid (hash token) (hash new_token) r) u n
        (λ v. rotate-deletes sid (hash token) (hash new_token) r v n),
  )

  logout-deletes :
      (sid token : String) (r : Redis)
      → (logout hash is_blank sid token r).0 ≡ ok tt
      → (logout hash is_blank sid token r).1.refresh (hash token) ≡ none
  unfolding logout delete_session
  logout-deletes sid token r e = ground (arith, eq_iff (hash token) (hash token))

  -- Without its key a token is of no use.
  bound-none : (sid h : String) (r : Redis) → r.refresh h ≡ none → bound_user sid h r ≡ none
  unfolding bound_user
  bound-none sid h r e = ground arith

  owns-none : (sid h : String) (r : Redis) → r.refresh h ≡ none → owns_session sid h r ≡ false
  unfolding owns_session
  owns-none sid h r e = ground arith

  refresh-refused :
      (sid token new_token : String) (r : Redis)
      → r.refresh (hash token) ≡ none
      → refresh_session hash is_blank sid token new_token r ≡ (err (coded auth_unauthorized), r)
  unfolding refresh_session after_rotation rotate migrate_legacy
  refresh-refused sid token new_token r e = ground (arith, bound-none sid (hash token) r e)

  logout-refused :
      (sid token : String) (r : Redis)
      → r.refresh (hash token) ≡ none
      → (logout hash is_blank sid token r).0 ≢ ok tt
  unfolding logout delete_session
  logout-refused sid token r e k = ground (arith, owns-none sid (hash token) r e)

  -- After a refresh token was exchanged, or its session revoked with it, and whatever logins,
  -- refreshes, logouts and expiries follow, as long as no token is drawn again: the token is refused
  -- for every session id, and the attempt changes nothing; nor can it log a session out.
  pub spent_token_refused :
      (sid token new_token : String) (user : ℕ) (r r' : Redis) (os : List Operation)
      (sid' token' : String)
      → (refresh_session hash is_blank sid token new_token r ≡ (ok user, r'))
        ⊎ (logout hash is_blank sid token r ≡ (ok tt, r'))
      → hash new_token ≢ hash token
      → All (Avoids (hash token)) os
      → (refresh_session hash is_blank sid' token token' (run os r')
          ≡ (err (coded auth_unauthorized), run os r'))
        × ((logout hash is_blank sid' token (run os r')).0 ≢ ok tt)
  spent_token_refused sid token new_token user r r' os sid' token' used n avoids = (
    refresh-refused sid' token token' (run os r') gone,
    logout-refused sid' token (run os r') gone,
  )
    where
      spent :
          (refresh_session hash is_blank sid token new_token r ≡ (ok user, r'))
            ⊎ (logout hash is_blank sid token r ≡ (ok tt, r'))
          → r'.refresh (hash token) ≡ none
      spent (inl e) =
          subst (λ (x : Redis). x.refresh (hash token) ≡ none)
            (ap (λ (p : Result ℕ × Redis). p.1) e)
            (refresh-deletes sid token new_token r user n (ap (λ (p : Result ℕ × Redis). p.0) e))
      spent (inr e) =
          subst (λ (x : Redis). x.refresh (hash token) ≡ none)
            (ap (λ (p : Result (Unit {0}) × Redis). p.1) e)
            (logout-deletes sid token r (ap (λ (p : Result (Unit {0}) × Redis). p.0) e))

      gone : (run os r').refresh (hash token) ≡ none
      gone = run-refresh os (hash token) r' avoids (spent used)
