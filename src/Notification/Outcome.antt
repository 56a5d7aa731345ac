-- ===== src/Notification/Outcome.antt =====
-- What a request for a notification comes to.
use retail_ops_microservices.Base.{
  String, ◌≡◌, ◌⊎◌, refl, inl, inr, true, false, none, some, ◌∷◌, Option-cases, eq_refl, ◌∙◌,
}
use retail_ops_microservices.Base.Exec.{ok, err}
use retail_ops_microservices.Base.Rows.{find_row}
use retail_ops_microservices.Http.{server_error}
use retail_ops_microservices.Notification.{
  CreateNotificationRequest, Notification, Delivery, delivered, undelivered, delivered_then_raised,
  Smtp, MailSystem, Stamp, notification_key, failure_of, taken, fits_columns, email,
  notification_of, insert_notification, create_notification, get_notification,
}

Delivery-cases :
    (d : Delivery)
    → (d ≡ delivered)
      ⊎ ((text : String) × (d ≡ undelivered text))
      ⊎ ((text : String) × (d ≡ delivered_then_raised text))
Delivery-cases delivered = inl refl
Delivery-cases (undelivered text) = inr (inl (text, refl))
Delivery-cases (delivered_then_raised text) = inr (inr (text, refl))

module _ {W : Type 0} (smtp : Smtp W) (t : Stamp) (r : CreateNotificationRequest)
    (s : MailSystem W) where
  -- What sending the e-mail comes to.
  abbrev pub delivery : Delivery
  delivery = (smtp.send_message (email smtp t r) s.outside).0

  -- The record agrees with what became of the e-mail: it is `sent` with no error when the server
  -- has taken the e-mail without an exception; else it is `failed` with the exception's text, and
  -- the server may have taken the e-mail all the same.
  pub data Agrees (n : Notification) (s' : MailSystem W) : Type 0 where
    sent :
        delivery ≡ delivered
        → n.status ≡ "sent"
        → n.provider_reference ≡ some t.provider_reference
        → n.last_error ≡ none
        → s'.emails ≡ email smtp t r ∷ s.emails
        → Agrees n s'
    unsent :
        (text : String)
        → delivery ≡ undelivered text
        → n.status ≡ "failed"
        → n.last_error ≡ some text
        → s'.emails ≡ s.emails
        → Agrees n s'
    sent_then_failed :
        (text : String)
        → delivery ≡ delivered_then_raised text
        → n.status ≡ "failed"
        → n.last_error ≡ some text
        → s'.emails ≡ email smtp t r ∷ s.emails
        → Agrees n s'

  notification_of-Agrees :
      (s' : MailSystem W)
      → s'.emails ≡ taken delivery (email smtp t r) s.emails
      → Agrees (notification_of smtp t r (failure_of delivery)) s'
  unfolding notification_of
  notification_of-Agrees s' e = elim (Delivery-cases delivery) [
    | inl d ↦ sent d (rw d refl) (rw d refl) (rw d refl) (e ∙ rw d refl)
    | inr (inl (text, d)) ↦ unsent text d (rw d refl) (rw d refl) (e ∙ rw d refl)
    | inr (inr (text, d)) ↦ sent_then_failed text d (rw d refl) (rw d refl) (e ∙ rw d refl)
  ]

  -- For a recipient that the header takes, a new id, and a record that fits its columns: the answer
  -- is the record of the request, which agrees with what became of the e-mail, and is found under
  -- its id afterwards.
  pub get_notification-create_notification :
      smtp.bad_header r.recipient ≡ false
      → find_row notification_key t.notification_id s.notifications ≡ none
      → fits_columns (notification_of smtp t r (failure_of delivery)) ≡ true
      → let (answer, s') = create_notification smtp t r s in
        (n : Notification) × (answer ≡ ok n)
        × (get_notification t.notification_id s' ≡ ok n)
        × (n.order_id ≡ r.order_id)
        × (n.recipient ≡ r.recipient)
        × Agrees n s'
  unfolding create_notification insert_notification get_notification find_row notification_of
  get_notification-create_notification header fresh fit = (
    notification_of smtp t r (failure_of delivery),
    rw (header, fresh, fit) refl,
    rw (header, fresh, fit, eq_refl t.notification_id) refl,
    refl,
    refl,
    notification_of-Agrees (create_notification smtp t r s).1 (rw header refl),
  )

  -- A record that does not fit its columns, for a recipient that the header takes and an e-mail
  -- that the server takes without an exception, is answered with 500 and not stored, but its e-mail
  -- has gone out.
  pub create_notification_unstored :
      smtp.bad_header r.recipient ≡ false
      → delivery ≡ delivered
      → fits_columns (notification_of smtp t r none) ≡ false
      → ((create_notification smtp t r s).0 ≡ err server_error)
        × ((create_notification smtp t r s).1.notifications ≡ s.notifications)
        × ((create_notification smtp t r s).1.emails ≡ email smtp t r ∷ s.emails)
  unfolding create_notification insert_notification
  create_notification_unstored header d unfit =
      elim (Option-cases (find_row notification_key t.notification_id s.notifications)) [
        | inl e ↦ rw (header, d, e, unfit) (refl, refl, refl)
        | inr (n, e) ↦ rw (header, d, e) (refl, refl, refl)
      ]
