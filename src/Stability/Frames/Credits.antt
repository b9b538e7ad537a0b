-- ===== src/Stability/Frames/Credits.antt =====
-- A predicate on the accounts and the ledger: no operation on another table matters to it.
use test_exchange_backend.Base.{List}
use test_exchange_backend.Model.Entities.{CreditAccount, CreditLedgerEntry}
use test_exchange_backend.Session.{
  insert_profile, insert_waitlist_entry, insert_campaign, insert_contract, insert_task,
  insert_assignment, insert_testing_session, insert_submission, insert_item, insert_message,
  insert_notification, insert_review, insert_dispute, insert_audit_event, insert_beta_state,
  set_profile, set_campaign, set_contract, set_assignment, set_submission, set_dispute,
  set_notification, set_beta_state, delete_tasks, mark_all_read, uuid4, now,
}
use test_exchange_backend.Session.Keeps.{Keeps-insert, IsStable}

module _ (Q : List CreditAccount → List CreditLedgerEntry → Type 0) where
  pub credits_IsStable : IsStable (λ s. Q s.accounts s.ledger)
  unfolding insert_profile insert_waitlist_entry insert_campaign insert_contract insert_task
      insert_assignment insert_testing_session insert_submission insert_item insert_message
      insert_notification insert_review insert_dispute insert_audit_event insert_beta_state
      set_profile set_campaign set_contract set_assignment set_submission set_dispute
      set_notification set_beta_state delete_tasks mark_all_read uuid4 now
  credits_IsStable = record {
    quiet = record {
      at_uuid4 = record { at = λ s h. h };
      at_now = record { at = λ s h. h };
      at_insert_profile = λ row. Keeps-insert _ _ (λ s h _. h);
      at_insert_waitlist_entry = λ row. Keeps-insert _ _ (λ s h _. h);
      at_insert_campaign = λ row. Keeps-insert _ _ (λ s h _. h);
      at_insert_contract = λ row. Keeps-insert _ _ (λ s h _. h);
      at_insert_task = λ row. Keeps-insert _ _ (λ s h _. h);
      at_insert_testing_session = λ row. Keeps-insert _ _ (λ s h _. h);
      at_insert_submission = λ row. Keeps-insert _ _ (λ s h _. h);
      at_insert_item = λ row. Keeps-insert _ _ (λ s h _. h);
      at_insert_message = λ row. Keeps-insert _ _ (λ s h _. h);
      at_insert_notification = λ row. Keeps-insert _ _ (λ s h _. h);
      at_insert_review = λ row. Keeps-insert _ _ (λ s h _. h);
      at_insert_dispute = λ row. Keeps-insert _ _ (λ s h _. h);
      at_insert_audit_event = λ row. Keeps-insert _ _ (λ s h _. h);
      at_insert_beta_state = λ row. Keeps-insert _ _ (λ s h _. h);
      at_set_beta_state = λ row. record { at = λ s h. h };
      at_set_profile = λ id change keeps. record { at = λ s h. h };
      at_set_campaign = λ id change keeps. record { at = λ s h. h };
      at_set_contract = λ id change keeps. record { at = λ s h. h };
      at_set_submission = λ id change keeps. record { at = λ s h. h };
      at_set_dispute = λ id change keeps. record { at = λ s h. h };
      at_set_notification = λ id change keeps. record { at = λ s h. h };
      at_delete_tasks = λ id. record { at = λ s h. h };
      at_read_all = λ user_id t. record { at = λ s h. h };
    };
    at_insert_assignment = λ row. Keeps-insert _ _ (λ s h _. h);
    at_set_assignment = λ id change keeps. record { at = λ s h. h };
  }
