-- ===== src/Mail/Unread.antt =====
-- The count of unread mails is exact.
use farm_server.Base.{
  ℕ, ◌+◌, ◌≤◌, ◌≡◌, ◌∙◌, sym, subst, refl, arith, Bool, ◌&&◌, List, [], ◌∷◌, Option, none, some,
  ◌==◌, if◌then◌else◌, suc,
}
use farm_server.Mail.{
  Mail, Mails, MailboxState, Attachment, is_unread, read_rows, read_states, send_mail, mark,
  mark_read, mark_all_read, summary, after_update, set_read, claim_attachment_once,
}

abbrev pub unread_of : ℕ → List Mail → ℕ
unread_of user [] = 0
unread_of user (m ∷ ms) =
    if m.user_id == user && is_unread m.status then suc (unread_of user ms) else unread_of user ms

abbrev count_of : Option MailboxState → ℕ
count_of none = 0
count_of (some s) = s.unread_count

-- For every user, the state holds the number of unread mails.
abbrev pub IsExact : Mails → Type 0
IsExact s = (user : ℕ) → (summary s user).unread_count ≡ unread_of user s.mails

-- The states after one row of an UPDATE.
abbrev row_states : (Mail → Bool) → Mail → (ℕ → Option MailboxState) → ℕ → Option MailboxState
row_states hit m states = if hit m then after_update m (set_read m) states else states

row-balance :
    (hit : Mail → Bool) (m : Mail) (ms : List Mail) (states : ℕ → Option MailboxState) (user : ℕ)
    → unread_of user (m ∷ ms) ≤ count_of (states user)
    → (unread_of user ms ≤ count_of (row_states hit m states user))
      × (count_of (row_states hit m states user) + unread_of user (m ∷ ms)
          ≡ count_of (states user) + unread_of user ((if hit m then set_read m else m) ∷ ms))
row-balance hit m ms states user h = ground (arith, h)

-- The triggers of an UPDATE take from the count what it takes from the unread mails.
read-balance :
    (hit : Mail → Bool) (ms : List Mail) (states : ℕ → Option MailboxState) (user : ℕ)
    → unread_of user ms ≤ count_of (states user)
    → count_of (read_states hit ms states user) + unread_of user ms
      ≡ count_of (states user) + unread_of user (read_rows hit ms)
unfolding read_rows read_states
read-balance hit [] states user h = refl
read-balance hit (m ∷ ms) states user h =
    let (low, row) = row-balance hit m ms states user h in
    ground (arith, read-balance hit ms (row_states hit m states) user low, row)

exact-count : (s : Mails) (user : ℕ) → (summary s user).unread_count ≡ count_of (s.states user)
exact-count s user = ground arith

mark-IsExact : (hit : Mail → Bool) (s : Mails) → IsExact s → IsExact (mark hit s)
unfolding mark
mark-IsExact hit s h user = omega (
  arith,
  exact-count s user,
  exact-count (mark hit s) user,
  h user,
  read-balance hit s.mails s.states user (omega (arith, h user, exact-count s user)),
)

send_mail-IsExact :
    (mail_id user : ℕ) (as_sent : List Attachment) (s : Mails)
    → IsExact s
    → IsExact (send_mail mail_id user as_sent s)
unfolding send_mail
send_mail-IsExact mail_id user as_sent s h other = ground (arith, h other)

-- The operations that change mails.
pub data Operation : Type 0 where
  sends : ℕ → ℕ → List Attachment → Operation
  reads : ℕ → ℕ → Operation
  reads_all : ℕ → Operation
  claims : ℕ → ℕ → Operation

unfoldable pub apply : Operation → Mails → Mails
unfolding send_mail mark_read mark_all_read claim_attachment_once
apply (sends mail_id user attachments) s = send_mail mail_id user attachments s
apply (reads mail_id user) s = mark_read mail_id user s
apply (reads_all user) s = mark_all_read user s
apply (claims id user) s = (claim_attachment_once id user s).1

claim-mails :
    (id user : ℕ) (s : Mails)
    → ((claim_attachment_once id user s).1.mails ≡ s.mails)
      × ((claim_attachment_once id user s).1.states ≡ s.states)
unfolding claim_attachment_once
claim-mails id user s = ground arith

apply-IsExact : (o : Operation) (s : Mails) → IsExact s → IsExact (apply o s)
unfolding apply mark_read mark_all_read
apply-IsExact (sends mail_id user attachments) s h = send_mail-IsExact mail_id user attachments s h
apply-IsExact (reads mail_id user) s h =
    mark-IsExact (λ m. m.mail_id == mail_id && m.user_id == user && is_unread m.status) s h
apply-IsExact (reads_all user) s h = mark-IsExact (λ m. m.user_id == user && is_unread m.status) s h
apply-IsExact (claims id user) s h =
    let (mails, states) = claim-mails id user s in
    λ other.
      exact-count (claim_attachment_once id user s).1 other
      ∙ subst
          (λ st. count_of (st other) ≡ unread_of other (claim_attachment_once id user s).1.mails)
          (sym states)
          (subst (λ ms. count_of (s.states other) ≡ unread_of other ms) (sym mails)
            (sym (exact-count s other) ∙ h other))

abbrev pub apply_all : List Operation → Mails → Mails
apply_all [] s = s
apply_all (o ∷ os) s = apply_all os (apply o s)

-- If every user's count of unread mails is exact, it is so after any sequence of sent, read and
-- claimed mails.
pub apply_all-IsExact : (os : List Operation) (s : Mails) → IsExact s → IsExact (apply_all os s)
apply_all-IsExact [] s h = h
apply_all-IsExact (o ∷ os) s h = apply_all-IsExact os (apply o s) (apply-IsExact o s h)
