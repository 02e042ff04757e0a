-- ===== src/Social/Shards.antt =====
-- The saga over all shards: `Begin` in the source's shard, `ApplyRemote` in the target's once the
-- request is delivered, and `ConfirmSource` in the source's once the acknowledgement is
-- (server/internal/social/infrastructure/friend_edge_saga.go). The bus delivers an event of an
-- outbox any number of times, at any later time.
use farm_server.Base.{
  ℕ, ◌≤◌, ◌≡◌, ◌≢◌, ◌⊎◌, ◌∙◌, refl, sym, subst, arith, Bool, true, false, ◌&&◌, String, List, [],
  ◌∷◌, Option, none, some, ◌==◌, put, IsIn, first, later, Bool-cases, inl, inr, ==_iff,
}
use farm_server.Social.{
  Edge, SocialEvent, edge_requested, edge_applied, friend_accepted, Social, begin, apply_remote,
  confirm_source, compensate_dead_requests,
}
use farm_server.Social.Once.{
  announced, accepted, active_of, Within, Keeps, begin-Within, apply_remote-Within,
  confirm_source-Within, compensate-Within, begin-Keeps, apply_remote-Keeps, compensate-Keeps,
  confirm-Keeps,
}

-- The shards by number, under the router's choice of a player's shard.
abbrev pub Shards : Type 0
Shards = ℕ → Social

-- A step of one shard. In the target's shard, no other edge has the request's id: ids are fresh
-- 128-bit values.
pub data Step (home : ℕ → ℕ) : Shards → Shards → Type 0 where
  begins :
      (source target : ℕ) (id : String) (w : Shards)
      → Step home w (put (home source) (begin source target id (w (home source))).1 w)
  applies :
      (source target : ℕ) (id : String) (w : Shards)
      → IsIn (edge_requested id source target) (w (home source)).outbox
      → ((w (home target)).index id ≡ none) ⊎ ((w (home target)).index id ≡ some (target, source))
      → Step home w (put (home target) (apply_remote source target id (w (home target))).1 w)
  confirms :
      (source target : ℕ) (id : String) (w : Shards)
      → IsIn (edge_applied id source target) (w (home target)).outbox
      → Step home w (put (home source) (confirm_source source target id (w (home source))).1 w)
  compensates :
      (shard : ℕ) (dead : String → Bool) (chosen : ℕ → ℕ → Bool) (w : Shards)
      → Step home w (put shard (compensate_dead_requests dead chosen (w shard)) w)

pub data Reach (home : ℕ → ℕ) (w : Shards) : Shards → Type 0 where
  here : Reach home w w
  after_step : {v u : Shards} → Reach home w v → Step home v u → Reach home w u

put-both :
    (P : Social → Social → Type 0) (h : ℕ) (t : Social) (w : Shards)
    → P (w h) t
    → ((s : Social) → P s s)
    → (j : ℕ) → P (w j) (put h t w j)
put-both P h t w k same j = elim (Bool-cases (j == h)) [
  | inl e ↦ rw e (subst (λ i. P (w i) t) (sym ((==_iff j h).0 e)) k)
  | inr e ↦ rw e (same (w j))
]

applied-announced :
    (id : String) (source target : ℕ) (es : List SocialEvent)
    → IsIn (edge_applied id source target) es
    → 1 ≤ announced target source es
unfolding announced
applied-announced id source target (e ∷ es) first = ground arith
applied-announced id source target (edge_requested i s t ∷ es) (later k) =
    applied-announced id source target es k
applied-announced id source target (edge_applied i s t ∷ es) (later k) =
    ground (arith, applied-announced id source target es k)
applied-announced id source target (friend_accepted i a ∷ es) (later k) =
    ground (arith, applied-announced id source target es k)
applied-announced id source target [] i = elim i [ ]

module _ (home : ℕ → ℕ) where
  pub record IsSound (w : Shards) : Type 0 where
    pub within : (u f : ℕ) → Within (w (home u)) u f
    pub mutually :
        (u f : ℕ) → accepted u f (w (home u)).outbox ≢ 0 → active_of ((w (home f)).edges f u) ≡ 1

  active-le-one : (o : Option Edge) → active_of o ≤ 1
  active-le-one none = omega arith
  active-le-one (some e) = ground arith

  kept-IsSound :
      (h : ℕ) (t : Social) (w : Shards)
      → ((u f : ℕ) → Within (w h) u f → Within t u f)
      → ((u f : ℕ) → Keeps (w h) t u f)
      → IsSound w
      → IsSound (put h t w)
  kept-IsSound h t w within keeps sound = record {
    within = λ u f.
        put-both (λ s t. Within s u f → Within t u f) h t w (within u f) (λ s k. k) (home u)
          (sound.within u f);
    mutually = λ u f a.
        let (mine, announcements) =
          put-both (λ s t. Keeps s t u f) h t w (keeps u f) (λ s. (omega arith, refl)) (home u) in
        let (theirs, rest) =
          put-both (λ s t. Keeps s t f u) h t w (keeps f u) (λ s. (omega arith, refl)) (home f) in
        omega (
          arith,
          theirs,
          sound.mutually u f (λ z. a (announcements ∙ z)),
          active-le-one ((put h t w (home f)).edges f u),
        );
  }

  confirm-IsSound :
      (source target : ℕ) (id : String) (w : Shards)
      → IsIn (edge_applied id source target) (w (home target)).outbox
      → IsSound w
      → IsSound (put (home source) (confirm_source source target id (w (home source))).1 w)
  confirm-IsSound source target id w i sound = record {
    within = λ u f.
        put-both (λ s t. Within s u f → Within t u f) (home source) after w
          (confirm_source-Within source target id (w (home source)) u f) (λ s k. k) (home u)
          (sound.within u f);
    mutually = λ u f a. omega (
      arith,
      grows f u,
      before u f (Bool-cases (u == source && f == target)) a,
      active-le-one ((put (home source) after w (home f)).edges f u),
    );
  }
    where
      after : Social
      after = (confirm_source source target id (w (home source))).1

      grows :
          (u f : ℕ)
          → active_of ((w (home u)).edges u f)
            ≤ active_of ((put (home source) after w (home u)).edges u f)
      grows u f =
          put-both (λ s t. active_of (s.edges u f) ≤ active_of (t.edges u f)) (home source) after w
            (confirm-Keeps source target id (w (home source)) u f).0 (λ s. omega arith) (home u)

      acknowledged : active_of ((w (home target)).edges target source) ≡ 1
      acknowledged = omega (
        arith,
        sound.within target source,
        applied-announced id source target (w (home target)).outbox i,
        active-le-one ((w (home target)).edges target source),
      )

      before :
          (u f : ℕ)
          → (((u == source && f == target) ≡ true) ⊎ ((u == source && f == target) ≡ false))
          → accepted u f (put (home source) after w (home u)).outbox ≢ 0
          → active_of ((w (home f)).edges f u) ≡ 1
      before u f (inl e) a =
          let user : u ≡ source = ground arith in
          let friend : f ≡ target = ground arith in
          subst (λ x. active_of ((w (home f)).edges f x) ≡ 1) (sym user)
            (subst (λ y. active_of ((w (home y)).edges y source) ≡ 1) (sym friend) acknowledged)
      before u f (inr e) a = sound.mutually u f (λ z. a (
          put-both (λ s t. accepted u f t.outbox ≡ accepted u f s.outbox) (home source) after w
            ((confirm-Keeps source target id (w (home source)) u f).1 e) (λ s. refl) (home u)
          ∙ z))

  Step-IsSound : {v w : Shards} → Step home v w → IsSound v → IsSound w
  Step-IsSound (begins source target id w) h =
      kept-IsSound (home source) (begin source target id (w (home source))).1 w
        (begin-Within source target id (w (home source)))
        (begin-Keeps source target id (w (home source))) h
  Step-IsSound (applies source target id w i fresh) h =
      kept-IsSound (home target) (apply_remote source target id (w (home target))).1 w
        (λ u f. apply_remote-Within source target id (w (home target)) u f fresh)
        (apply_remote-Keeps source target id (w (home target))) h
  Step-IsSound (confirms source target id w i) h = confirm-IsSound source target id w i h
  Step-IsSound (compensates shard dead chosen w) h =
      kept-IsSound shard (compensate_dead_requests dead chosen (w shard)) w
        (compensate-Within dead chosen (w shard)) (compensate-Keeps dead chosen (w shard)) h

  Reach-IsSound : {v w : Shards} → Reach home v w → IsSound v → IsSound w
  Reach-IsSound here h = h
  Reach-IsSound (after_step r step) h = Step-IsSound step (Reach-IsSound r h)

-- Shards without friendships.
abbrev pub no_friends : Shards
no_friends shard = record { edges = λ u f. none; index = λ id. none; outbox = [] }

no_friends-IsSound : (home : ℕ → ℕ) → IsSound home no_friends
unfolding announced accepted
no_friends-IsSound home = record {
  within = λ u f. omega arith;
  mutually = λ u f a. elim (a refl) [ ];
}

-- Starting without friendships, and however the requests, acknowledgements and compensations of all
-- shards interleave and are delivered again: a user's shard acknowledges or announces a friendship
-- at most once, and only while the user's own edge is ACTIVE; and where it has announced one, the
-- friend's edge in the friend's shard is ACTIVE too.
pub friendship_mutual :
    (home : ℕ → ℕ) (w : Shards) (user friend : ℕ)
    → Reach home no_friends w
    → (announced user friend (w (home user)).outbox ≤ active_of ((w (home user)).edges user friend))
      × (active_of ((w (home user)).edges user friend) ≤ 1)
      × (accepted user friend (w (home user)).outbox ≢ 0
          → active_of ((w (home friend)).edges friend user) ≡ 1)
friendship_mutual home w user friend r =
    let h = Reach-IsSound home r (no_friends-IsSound home) in
    (
      h.within user friend,
      active-le-one home ((w (home user)).edges user friend),
      h.mutually user friend,
    )
