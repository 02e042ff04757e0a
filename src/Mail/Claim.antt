-- ===== src/Mail/Claim.antt =====
-- An attachment is credited once.
use farm_server.Base.{
  ℕ, ◌≡◌, ◌≢◌, ◌⊎◌, refl, arith, true, false, subst, sym, ap, ◌∙◌, inl, inr, List, [], ◌∷◌, ◌++◌,
  none, some, ◌==◌, if◌then◌else◌,
}
use farm_server.Errors.{ok}
use farm_server.Mail.Unread.{Operation, sends, reads, reads_all, claims, apply, apply_all}
use farm_server.Mail.{
  Mails, Attachment, owner_of_mail, find_attachment, set_claimed, send_mail, mark, mark_read,
  mark_all_read, claim_attachment_once, credit_item,
}

==-self : (n : ℕ) → (n == n) ≡ true
==-self n = ground arith

-- The attachment is taken.
abbrev pub IsTaken : ℕ → Mails → Type 0
IsTaken id s = (a : Attachment) × (find_attachment id s.attachments ≡ some a) × (a.claimed ≡ true)

find-set_claimed :
    (id other : ℕ) (rest : List Attachment) (a : Attachment)
    → find_attachment other rest ≡ some a
    → find_attachment other (set_claimed id rest)
      ≡ some (if other == id then record a { claimed = true } else a)
unfolding find_attachment set_claimed
find-set_claimed id other [] a h = cc
find-set_claimed id other (b ∷ rest) a h = ground (arith, find-set_claimed id other rest a)

find-append :
    (id : ℕ) (xs ys : List Attachment) (a : Attachment)
    → find_attachment id xs ≡ some a
    → find_attachment id (xs ++ ys) ≡ some a
unfolding find_attachment
find-append id [] ys a h = cc
find-append id (x ∷ xs) ys a h = ground (arith, find-append id xs ys a)

-- What a successful claim does: the attachment was free and its mail is the user's, its gift is
-- credited, and it is taken afterwards.
pub claim-settles :
    (id user : ℕ) (s : Mails)
    → (claim_attachment_once id user s).0 ≡ none
    → (a : Attachment) × (find_attachment id s.attachments ≡ some a)
      × (a.claimed ≡ false)
      × (owner_of_mail a.mail_id s.mails ≡ some user)
      × (credit_item user a.gift a.quantity s.db ≡ ok (tt, (claim_attachment_once id user s).1.db))
      × ((claim_attachment_once id user s).1.attachments ≡ set_claimed id s.attachments)
unfolding claim_attachment_once
claim-settles id user s h = ground arith

claim-attachments :
    (other user : ℕ) (s : Mails)
    → ((claim_attachment_once other user s).1.attachments ≡ s.attachments)
      ⊎ ((claim_attachment_once other user s).1.attachments ≡ set_claimed other s.attachments)
unfolding claim_attachment_once
claim-attachments other user s = ground arith

-- A taken attachment stays taken.
abbrev HasTaken : ℕ → List Attachment → Type 0
HasTaken id rows = (a : Attachment) × (find_attachment id rows ≡ some a) × (a.claimed ≡ true)

set_claimed-HasTaken :
    (id other : ℕ) (rows : List Attachment)
    → HasTaken id rows
    → HasTaken id (set_claimed other rows)
set_claimed-HasTaken id other rows (a, e, k) = (
  if id == other then record a { claimed = true } else a,
  find-set_claimed other id rows a e,
  ground arith,
)

claim-IsTaken :
    (id other user : ℕ) (s : Mails)
    → IsTaken id s
    → IsTaken id (claim_attachment_once other user s).1
claim-IsTaken id other user s h = elim (claim-attachments other user s) [
  | inl e ↦ subst (HasTaken id) (sym e) h
  | inr e ↦ subst (HasTaken id) (sym e) (set_claimed-HasTaken id other s.attachments h)
]

apply-IsTaken : (id : ℕ) (o : Operation) (s : Mails) → IsTaken id s → IsTaken id (apply o s)
unfolding apply send_mail mark_read mark_all_read mark
apply-IsTaken id (sends mail_id user new) s (a, e, k) = (a, find-append id s.attachments _ a e, k)
apply-IsTaken id (reads mail_id user) s h = h
apply-IsTaken id (reads_all user) s h = h
apply-IsTaken id (claims other user) s h = claim-IsTaken id other user s h

apply_all-IsTaken :
    (id : ℕ) (os : List Operation) (s : Mails) → IsTaken id s → IsTaken id (apply_all os s)
apply_all-IsTaken id [] s h = h
apply_all-IsTaken id (o ∷ os) s h = apply_all-IsTaken id os (apply o s) (apply-IsTaken id o s h)

claim_taken :
    (id user : ℕ) (s : Mails)
    → IsTaken id s
    → ((claim_attachment_once id user s).0 ≢ none) × ((claim_attachment_once id user s).1 ≡ s)
unfolding claim_attachment_once
claim_taken id user s (a, e, k) = (λ h. ground arith, ground arith)

-- Once an attachment is claimed, no claim of it succeeds or changes anything, by whomever and after
-- whatever other operations on mails.
pub claim_once :
    (id user other : ℕ) (os : List Operation) (s : Mails)
    → (claim_attachment_once id user s).0 ≡ none
    → let later : Mails = apply_all os (claim_attachment_once id user s).1 in
      ((claim_attachment_once id other later).0 ≢ none)
      × ((claim_attachment_once id other later).1 ≡ later)
claim_once id user other os s h =
    let (a, found, free, owner, credited, taken) = claim-settles id user s h in
    claim_taken id other (apply_all os (claim_attachment_once id user s).1) (
      apply_all-IsTaken id os (claim_attachment_once id user s).1 (
        record a { claimed = true },
        ap (find_attachment id) taken
            ∙ find-set_claimed id id s.attachments a found
            ∙ rw (==-self id) refl,
        refl,
      ))
