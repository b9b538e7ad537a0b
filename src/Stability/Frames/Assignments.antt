-- ===== src/Stability/Frames/Assignments.antt =====
-- A predicate on the assignments: the operations on other tables do not matter to it, nor does
-- the credit service.
use test_exchange_backend.Base.{ℕ, List}
use test_exchange_backend.Base.Int.{ℤ}
use test_exchange_backend.Model.Entities.{Assignment, CreditAccount, CreditLedgerEntry}
use test_exchange_backend.Session.{
  insert_profile, insert_waitlist_entry, insert_campaign, insert_contract, insert_task,
  insert_account, insert_entry, set_balance, insert_testing_session, insert_submission, insert_item,
  insert_message, insert_notification, insert_review, insert_dispute, insert_audit_event,
  insert_beta_state, set_profile, set_campaign, set_contract, set_submission, set_dispute,
  set_notification, set_beta_state, delete_tasks, mark_all_read, uuid4, now,
}
use test_exchange_backend.Stability.Basics.{IsCreditStable}
use test_exchange_backend.Stability.Frames.Posting.{posting_IsCreditStable}
use test_exchange_backend.Session.Keeps.{Keeps, Keeps-insert, IsQuiet}

module _ (Q : List Assignment → Type 0) where
  pub assignments_IsQuiet : IsQuiet (λ s. Q s.assignments)
  unfolding insert_profile insert_waitlist_entry insert_campaign insert_contract insert_task
      insert_testing_session insert_submission insert_item insert_message insert_notification
      insert_review insert_dispute insert_audit_event insert_beta_state set_profile set_campaign
      set_contract set_submission set_dispute set_notification set_beta_state delete_tasks
      mark_all_read uuid4 now
  assignments_IsQuiet = record {
    at_uuid4 = record { at = λ s h. h };
    at_now = record { at = λ s h. h };
    at_insert_profile = λ row. Keeps-insert _ _ (λ s h _. h);
    at_insert_waitlist_entry = λ row. Keeps-insert _ _ (λ s h _. h);
    at_insert_campaign = λ row. Keeps-insert _ _ (λ s h _. h);
    at_insert_contract = λ row. Keeps-insert _ _ (λ s h _. h);
    at_insert_task = λ row. Keeps-insert _ _ (λ s h _. h);
    at_insert_testing_session = λ row. Keeps-insert _ _ (λ s h _. h);
    at_insert_submission = λ row. Keeps-insert _ _ (λ s h _. h);
    at_insert_item = λ row. Keeps-insert _ _ (λ s h _. h);
    at_insert_message = λ row. Keeps-insert _ _ (λ s h _. h);
    at_insert_notification = λ row. Keeps-insert _ _ (λ s h _. h);
    at_insert_review = λ row. Keeps-insert _ _ (λ s h _. h);
    at_insert_dispute = λ row. Keeps-insert _ _ (λ s h _. h);
    at_insert_audit_event = λ row. Keeps-insert _ _ (λ s h _. h);
    at_insert_beta_state = λ row. Keeps-insert _ _ (λ s h _. h);
    at_set_beta_state = λ row. record { at = λ s h. h };
    at_set_profile = λ id change keeps. record { at = λ s h. h };
    at_set_campaign = λ id change keeps. record { at = λ s h. h };
    at_set_contract = λ id change keeps. record { at = λ s h. h };
    at_set_submission = λ id change keeps. record { at = λ s h. h };
    at_set_dispute = λ id change keeps. record { at = λ s h. h };
    at_set_notification = λ id change keeps. record { at = λ s h. h };
    at_delete_tasks = λ id. record { at = λ s h. h };
    at_read_all = λ user_id t. record { at = λ s h. h };
  }

  Keeps-insert_account : (row : CreditAccount) → Keeps (λ s. Q s.assignments) (insert_account row)
  unfolding insert_account
  Keeps-insert_account row = Keeps-insert _ _ (λ s h _. h)

  Keeps-insert_entry : (row : CreditLedgerEntry) → Keeps (λ s. Q s.assignments) (insert_entry row)
  unfolding insert_entry
  Keeps-insert_entry row = Keeps-insert _ _ (λ s h _. h)

  Keeps-set_balance :
      (user_id : ℕ) (balance : ℤ) → Keeps (λ s. Q s.assignments) (set_balance user_id balance)
  unfolding set_balance
  Keeps-set_balance user_id balance = Keeps-insert _ _ (λ s h _. h)

  Keeps-uuid4 : Keeps (λ s. Q s.assignments) uuid4
  unfolding uuid4
  Keeps-uuid4 = record { at = λ s h. h }

  pub assignments_IsCreditStable : IsCreditStable (λ s. Q s.assignments)
  assignments_IsCreditStable =
      posting_IsCreditStable Keeps-insert_account Keeps-insert_entry Keeps-set_balance Keeps-uuid4
