-- ===== src/Mail.antt =====
-- The mail service (server/internal/mail/infrastructure/mysql_mail_service.go) with the triggers
-- that keep the count of unread mails (migrations/mysql/202608110001_mailbox_state.up.sql). Titles,
-- contents, times and the notifier are left out. Wallets and inventory are those of `Db`.
pub mod Unread
pub mod Claim
use farm_server.Base.{
  ℕ, ◌+◌, ◌-◌, Bool, true, false, ◌&&◌, List, [], ◌∷◌, ◌++◌, Option, none, some, ltb, ◌==◌,
  if◌then◌else◌, map, put,
}
use farm_server.Errors.{Error, Result, ok, err, plain, coded, mail_not_found, mail_already_claimed}
use farm_server.Farm.{max_int64}
use farm_server.Store.{Db, ItemType}
use farm_server.Commit.Rows.{out_of_range}
use farm_server.Commit.Assets.{add_inventory_item}

pub data MailStatus : Type 0 where
  unread read deleted : MailStatus

-- A row of `mails`.
pub record Mail : Type 0 where
  pub mail_id : ℕ
  pub user_id : ℕ
  pub status : MailStatus

-- What an attachment gives: coins, or an item with its id.
pub data Gift : Type 0 where
  coin : Gift
  item : ItemType → ℕ → Gift

pub record Attachment : Type 0 where
  pub attachment_id : ℕ
  pub mail_id : ℕ
  pub gift : Gift
  pub quantity : ℕ
  pub claimed : Bool

-- A row of `mailbox_states`.
pub record MailboxState : Type 0 where
  pub unread_count : ℕ
  pub version : ℕ

pub record Mails : Type 0 where
  pub mails : List Mail
  pub attachments : List Attachment
  pub states : ℕ → Option MailboxState
  pub db : Db

abbrev pub is_unread : MailStatus → Bool
is_unread unread = true
is_unread _ = false

-- `trg_mails_mailbox_after_insert`
abbrev pub counted_up : Option MailboxState → MailboxState
counted_up none = record { unread_count = 1; version = 1 }
counted_up (some s) = record { unread_count = s.unread_count + 1; version = s.version + 1 }

abbrev pub counted_down : Option MailboxState → MailboxState
counted_down none = record { unread_count = 0; version = 1 }
counted_down (some s) = record { unread_count = s.unread_count - 1; version = s.version + 1 }

abbrev pub after_insert : Mail → (ℕ → Option MailboxState) → ℕ → Option MailboxState
after_insert m states =
    if is_unread m.status
    then put m.user_id (some (counted_up (states m.user_id))) states
    else states

-- `trg_mails_mailbox_after_update`, fired by a change that keeps the user: a mail becomes unread,
-- ceases to be unread, or neither.
abbrev pub after_update : Mail → Mail → (ℕ → Option MailboxState) → ℕ → Option MailboxState
after_update old new states =
    if is_unread new.status
    then if is_unread old.status
      then states
      else put new.user_id (some (counted_up (states new.user_id))) states
    else if is_unread old.status
    then put new.user_id (some (counted_down (states new.user_id))) states
    else states

-- `UPDATE mails SET status='READ' WHERE …`: the rows afterwards, and the states that the trigger
-- leaves, row by row.
abbrev pub set_read : Mail → Mail
set_read m = record m { status = read }

unfoldable pub read_rows : (Mail → Bool) → List Mail → List Mail
read_rows hit [] = []
read_rows hit (m ∷ ms) = (if hit m then set_read m else m) ∷ read_rows hit ms

unfoldable pub read_states :
    (Mail → Bool) → List Mail → (ℕ → Option MailboxState) → ℕ → Option MailboxState
read_states hit [] states = states
read_states hit (m ∷ ms) states =
    read_states hit ms (if hit m then after_update m (set_read m) states else states)

abbrev pub summary : Mails → ℕ → MailboxState
summary s user = elim (s.states user) [
  | none ↦ record { unread_count = 0; version = 0 }
  | some st ↦ st
]

-- `SendMail` with the id and the attachments that the database gives the rows.
unfoldable pub send_mail : ℕ → ℕ → List Attachment → Mails → Mails
send_mail mail_id user attachments s = record s {
  mails = row ∷ s.mails;
  attachments = s.attachments ++ map unclaimed attachments;
  states = after_insert row s.states;
}
  where
    row : Mail
    row = record { mail_id = mail_id; user_id = user; status = unread }

    unclaimed : Attachment → Attachment
    unclaimed a = record a { mail_id = mail_id; claimed = false }

unfoldable pub mark : (Mail → Bool) → Mails → Mails
unfolding read_rows read_states
mark hit s = record s { mails = read_rows hit s.mails; states = read_states hit s.mails s.states }

unfoldable pub mark_read : ℕ → ℕ → Mails → Mails
unfolding mark
mark_read mail_id user s =
    mark (λ m. m.mail_id == mail_id && m.user_id == user && is_unread m.status) s

unfoldable pub mark_all_read : ℕ → Mails → Mails
unfolding mark
mark_all_read user s = mark (λ m. m.user_id == user && is_unread m.status) s

-- The owner of a mail, and an attachment with its owner.
unfoldable pub owner_of_mail : ℕ → List Mail → Option ℕ
owner_of_mail id [] = none
owner_of_mail id (m ∷ ms) = if m.mail_id == id then some m.user_id else owner_of_mail id ms

unfoldable pub find_attachment : ℕ → List Attachment → Option Attachment
find_attachment id [] = none
find_attachment id (a ∷ rest) = if a.attachment_id == id then some a else find_attachment id rest

abbrev pub is_mail_of : ℕ → Option ℕ → Bool
is_mail_of user none = false
is_mail_of user (some owner) = owner == user

-- The coins of a wallet afterwards: the UPDATE of one that is not there changes no row.
abbrev pub credit_coins : ℕ → ℕ → Option ℕ → Db → Result (Unit {0} × Db)
credit_coins user n none db = ok (tt, db)
credit_coins user n (some balance) db =
    if ltb max_int64 (balance + n)
    then err out_of_range
    else ok (tt, record db { wallets = put user (some (balance + n)) db.wallets })

-- `creditItem`. The columns are BIGINT.
unfoldable pub credit_item : ℕ → Gift → ℕ → Db → Result (Unit {0} × Db)
credit_item user coin n db = credit_coins user n (db.wallets user) db
credit_item user (item t id) n db = add_inventory_item user t id n db

unfoldable pub set_claimed : ℕ → List Attachment → List Attachment
set_claimed id [] = []
set_claimed id (a ∷ rest) =
    (if a.attachment_id == id then record a { claimed = true } else a) ∷ set_claimed id rest

abbrev pub claim_found : ℕ → ℕ → Attachment → Mails → Option Error × Mails
claim_found id user a s =
    if a.claimed
    then (some (coded mail_already_claimed), s)
    else elim (credit_item user a.gift a.quantity s.db) [
      | err e ↦ (some e, s)
      | ok (u, db) ↦ (none, record s { attachments = set_claimed id s.attachments; db = db })
    ]

-- One attempt of `ClaimAttachment`.
unfoldable pub claim_attachment_once : ℕ → ℕ → Mails → Option Error × Mails
unfolding owner_of_mail find_attachment credit_item set_claimed
claim_attachment_once id user s = elim (find_attachment id s.attachments) [
  | none ↦ (some (coded mail_not_found), s)
  | some a ↦
      if is_mail_of user (owner_of_mail a.mail_id s.mails)
      then claim_found id user a s
      else (some (coded mail_not_found), s)
]
