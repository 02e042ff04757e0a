-- ===== src/Social/Once.antt =====
-- Each friendship is acknowledged or announced once on each side.
use farm_server.Base.{
  ℕ, suc, ◌≤◌, ◌≡◌, ◌⊎◌, arith, Bool, false, ◌&&◌, String, List, [], ◌∷◌, Option, none, some, ◌==◌,
  if◌then◌else◌,
}
use farm_server.Social.{
  pending, active, failed, Edge, SocialEvent, edge_requested, edge_applied, friend_accepted, Social,
  begin, apply_remote, confirm_source, compensate_dead_requests,
}

-- The acknowledgements that the user's shard has sent for an edge, and the announcements of it.
unfoldable pub announced : ℕ → ℕ → List SocialEvent → ℕ
announced user friend [] = 0
announced user friend (edge_requested id source target ∷ es) = announced user friend es
announced user friend (edge_applied id source target ∷ es) =
    let rest = announced user friend es in
    if target == user && source == friend then suc rest else rest
announced user friend (friend_accepted inviter accepter ∷ es) =
    let rest = announced user friend es in
    if accepter == user && inviter == friend then suc rest else rest

abbrev pub active_of : Option Edge → ℕ
active_of none = 0
active_of (some e) = elim e.state [ pending ↦ 0 | active ↦ 1 | failed ↦ 0 ]

abbrev pub Within : Social → ℕ → ℕ → Type 0
Within s user friend = announced user friend s.outbox ≤ active_of (s.edges user friend)

pub begin-Within :
    (source target : ℕ) (id : String) (s : Social) (u f : ℕ)
    → Within s u f
    → Within (begin source target id s).1 u f
unfolding begin announced
begin-Within source target id s u f h = ground (arith, h)

pub apply_remote-Within :
    (source target : ℕ) (id : String) (s : Social) (u f : ℕ)
    → (s.index id ≡ none) ⊎ (s.index id ≡ some (target, source))
    → Within s u f
    → Within (apply_remote source target id s).1 u f
unfolding apply_remote announced
apply_remote-Within source target id s u f i h = ground (arith, h)

pub confirm_source-Within :
    (source target : ℕ) (id : String) (s : Social) (u f : ℕ)
    → Within s u f
    → Within (confirm_source source target id s).1 u f
unfolding confirm_source announced
confirm_source-Within source target id s u f h = ground (arith, h)

pub compensate-Within :
    (dead : String → Bool) (chosen : ℕ → ℕ → Bool) (s : Social) (u f : ℕ)
    → Within s u f
    → Within (compensate_dead_requests dead chosen s) u f
unfolding compensate_dead_requests
compensate-Within dead chosen s u f h = ground (arith, h)

-- Announcements of a friendship to the accepter `user` by the inviter `friend`.
unfoldable pub accepted : ℕ → ℕ → List SocialEvent → ℕ
accepted user friend [] = 0
accepted user friend (edge_requested id source target ∷ es) = accepted user friend es
accepted user friend (edge_applied id source target ∷ es) = accepted user friend es
accepted user friend (friend_accepted inviter accepter ∷ es) =
    let rest = accepted user friend es in
    if accepter == user && inviter == friend then suc rest else rest

-- What an operation leaves: an active edge stays active, and at most the given friendship is
-- announced.
abbrev pub Keeps : Social → Social → ℕ → ℕ → Type 0
Keeps s t u f =
    (active_of (s.edges u f) ≤ active_of (t.edges u f))
    × (accepted u f t.outbox ≡ accepted u f s.outbox)

pub begin-Keeps :
    (source target : ℕ) (id : String) (s : Social) (u f : ℕ)
    → Keeps s (begin source target id s).1 u f
unfolding begin accepted
begin-Keeps source target id s u f = ground arith

pub apply_remote-Keeps :
    (source target : ℕ) (id : String) (s : Social) (u f : ℕ)
    → Keeps s (apply_remote source target id s).1 u f
unfolding apply_remote accepted
apply_remote-Keeps source target id s u f = ground arith

pub compensate-Keeps :
    (dead : String → Bool) (chosen : ℕ → ℕ → Bool) (s : Social) (u f : ℕ)
    → Keeps s (compensate_dead_requests dead chosen s) u f
unfolding compensate_dead_requests
compensate-Keeps dead chosen s u f = ground arith

pub confirm-Keeps :
    (source target : ℕ) (id : String) (s : Social) (u f : ℕ)
    → (active_of (s.edges u f) ≤ active_of ((confirm_source source target id s).1.edges u f))
      × ((u == source && f == target) ≡ false
          → accepted u f (confirm_source source target id s).1.outbox ≡ accepted u f s.outbox)
unfolding confirm_source accepted
confirm-Keeps source target id s u f = ground arith
