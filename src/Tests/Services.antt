-- ===== src/Tests/Services.antt =====
-- Mails and viewers at concrete inputs.
use farm_server.Base.{ℕ, ◌≡◌, ◌≤◌, ◌≢◌, refl, false, none, List, [], ◌∷◌}
use farm_server.Store.{crop_item, quantity}
use farm_server.Commit.Assets.{add_inventory_item}
use farm_server.Mail.{Mails, Attachment, item, claim_attachment_once, send_mail}
use farm_server.Mail.Unread.{
  Operation, sends, reads, reads_all, claims, apply_all, IsExact, apply_all-IsExact,
}
use farm_server.Mail.Claim.{claim_once}
use farm_server.Gateway.{Gateway, is_on, guests, subscribe}
use farm_server.Gateway.Viewers.{
  contains, here, after_step, subscribes, new_gateway, viewers_consistent,
}
use farm_server.Tests.Data.{test_db}

abbrev crops : Attachment
crops = record {
  attachment_id = 1;
  mail_id = 1;
  gift = item crop_item 1;
  quantity = 3;
  claimed = false;
}

abbrev no_mails : Mails
no_mails = record { mails = []; attachments = []; states = λ u. none; db = test_db }

abbrev operations : List Operation
operations = sends 1 7 (crops ∷ []) ∷ sends 2 7 [] ∷ reads 1 7 ∷ claims 1 7 ∷ []

apply_all-IsExact_example : IsExact (apply_all operations no_mails)
apply_all-IsExact_example = apply_all-IsExact operations no_mails (λ u. refl)

abbrev inbox : Mails
inbox = send_mail 1 7 (crops ∷ []) no_mails

abbrev reopened : Mails
reopened = apply_all (reads_all 7 ∷ []) (claim_attachment_once 1 7 inbox).1

claim_once_example :
    ((claim_attachment_once 1 8 reopened).0 ≢ none)
    × ((claim_attachment_once 1 8 reopened).1 ≡ reopened)
unfolding send_mail claim_attachment_once add_inventory_item quantity
claim_once_example = claim_once 1 7 8 (reads_all 7 ∷ []) inbox refl

-- Connection 10 visits farm 1, and connection 1 is the owner's.
abbrev user : ℕ → ℕ
user c = c

abbrev visited : Gateway
visited = (subscribe user 1 3 10 new_gateway).1

abbrev shown : Gateway
shown = (subscribe user 1 4 1 visited).1

viewers_consistent_example :
    (contains 10 (shown.viewers 1) ≡ is_on 1 (shown.conn_farm 10))
    × (guests user 1 (shown.viewers 1) ≤ 5)
viewers_consistent_example =
    viewers_consistent user shown 1 10
      (after_step (after_step here (subscribes 1 3 10 new_gateway)) (subscribes 1 4 1 visited))
