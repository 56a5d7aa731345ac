-- ===== src/Notification.antt =====
-- services/notification-service/src/notification_service: templates, the SMTP provider, the table
-- and the endpoints. The mail server is a function on a state of its own; `emails` are the ones
-- that it has taken, the newest first.
pub mod Outcome
mod Tests
use Prim.Native.String.{◌++◌ as str_append, count}
use retail_ops_microservices.Base.{
  ℕ, String, Bool, true, false, ◌&&◌, ◌||◌, not, Option, none, some, List, [], ◌∷◌, leb, is_some,
  Time, if◌then◌else◌,
}
use retail_ops_microservices.Base.Exec.{Result, ok, err, Exec}
use retail_ops_microservices.Base.Rows.{find_row}
use retail_ops_microservices.Http.{HttpError, not_found, server_error}

-- The keys that the request's schema accepts.
pub data TemplateKey : Type 0 where
  order_created : TemplateKey
  invoice_generated : TemplateKey
  payment_completed : TemplateKey
  payment_failed : TemplateKey
  receipt_generated : TemplateKey
  workflow_completed : TemplateKey

abbrev key_text : TemplateKey → String
key_text order_created = "order_created"
key_text invoice_generated = "invoice_generated"
key_text payment_completed = "payment_completed"
key_text payment_failed = "payment_failed"
key_text receipt_generated = "receipt_generated"
key_text workflow_completed = "workflow_completed"

abbrev subject_of : TemplateKey → String
subject_of order_created = "Local workflow order created"
subject_of invoice_generated = "Local workflow invoice generated"
subject_of payment_completed = "Local workflow payment completed"
subject_of payment_failed = "Local workflow payment failed"
subject_of receipt_generated = "Local workflow receipt generated"
subject_of workflow_completed = "Local workflow completed"

pub record RenderedNotification : Type 0 where
  pub subject : String
  pub message : String

unfoldable render_template : TemplateKey → String → RenderedNotification
render_template key order_id = record {
  subject = subject_of key;
  message = str_append (subject_of key) (
      str_append " for order " (
        str_append order_id
          ".\n\nThis message was generated by RetailOps-microservices-platform local notification-service."));
}

pub record CreateNotificationRequest : Type 0 where
  pub order_id : String
  pub channel : String
  pub recipient : String
  pub template_key : TemplateKey

pub record Notification : Type 0 where
  pub id : String
  pub order_id : String
  pub channel : String
  pub status : String
  pub recipient : String
  pub template_key : Option String
  pub subject : Option String
  pub message : String
  pub provider : Option String
  pub provider_reference : Option String
  pub sent_at : Option Time
  pub delivery_attempts : ℕ
  pub last_error : Option String
  pub created_at : Time
  pub updated_at : Time

pub record Email : Type 0 where
  pub from_address : String
  pub to_address : String
  pub subject : String
  pub message_id : String
  pub content : String

-- What the `with` block comes to: the server has taken the e-mail; an exception with a text, as
-- when there is no connection or the server refuses, and it has not; or it has, and an exception
-- followed, as from the end of the session.
pub data Delivery : Type 0 where
  delivered : Delivery
  undelivered : String → Delivery
  delivered_then_raised : String → Delivery

-- `bad_header` tells whether the assignment of message["To"] raises, which it does with ValueError
-- for a recipient of several lines.
pub record Smtp (W : Type 0) : Type 0 where
  pub from_address : String
  pub bad_header : String → Bool
  pub send_message : Email → W → Delivery × W

-- The exception's text that the `except` clause records.
abbrev pub failure_of : Delivery → Option String
failure_of delivered = none
failure_of (undelivered text) = some text
failure_of (delivered_then_raised text) = some text

abbrev pub taken : Delivery → Email → List Email → List Email
taken delivered email emails = email ∷ emails
taken (undelivered text) email emails = emails
taken (delivered_then_raised text) email emails = email ∷ emails

pub record MailSystem (W : Type 0) : Type 0 where
  pub notifications : List Notification
  pub emails : List Email
  pub outside : W

-- What a call reads of uuid4 and of the clock.
pub record Stamp : Type 0 where
  pub notification_id : String
  pub provider_reference : String
  pub sent_at : Time
  pub now : Time

abbrev pub notification_key : Notification → String
notification_key n = n.id

-- VARCHAR(n), for a text that may be missing
abbrev pub fits : ℕ → Option String → Bool
fits n none = true
fits n (some t) = leb (count t) n

-- The columns whose texts come from outside: order_id 64, recipient 256, last_error 512.
abbrev pub fits_columns : Notification → Bool
fits_columns n = leb (count n.order_id) 64 && leb (count n.recipient) 256 && fits 512 n.last_error

module _ {W : Type 0} (smtp : Smtp W) (t : Stamp) (r : CreateNotificationRequest) where
  -- `LocalSmtpNotificationProvider.send` builds this e-mail.
  unfoldable pub email : Email
  unfolding render_template
  email = record {
    from_address = smtp.from_address;
    to_address = r.recipient;
    subject = (render_template r.template_key r.order_id).subject;
    message_id = str_append "<" (str_append t.provider_reference "@retailops.local>");
    content = (render_template r.template_key r.order_id).message;
  }

  -- The record of a sending, by the exception's text if there is one.
  unfoldable pub notification_of : Option String → Notification
  unfolding render_template
  notification_of failure = record {
    id = t.notification_id;
    order_id = r.order_id;
    channel = r.channel;
    status = if is_some failure then "failed" else "sent";
    recipient = r.recipient;
    template_key = some (key_text r.template_key);
    subject = some (render_template r.template_key r.order_id).subject;
    message = (render_template r.template_key r.order_id).message;
    provider = some "local-smtp-provider";
    provider_reference = if is_some failure then none else some t.provider_reference;
    sent_at = if is_some failure then none else some t.sent_at;
    delivery_attempts = 1;
    last_error = failure;
    created_at = t.now;
    updated_at = t.now;
  }

  -- The INSERT of `NotificationRepository.create_notification`.
  unfoldable pub insert_notification :
      Notification → Exec (List Notification) HttpError Notification
  insert_notification n rows =
      if is_some (find_row notification_key n.id rows) || not (fits_columns n)
      then (err server_error, rows)
      else (ok n, n ∷ rows)

  -- The e-mail goes out first; the record is stored afterwards. The header is assigned outside the
  -- `try`, so its exception is answered with 500.
  unfoldable pub create_notification : Exec (MailSystem W) HttpError Notification
  unfolding email notification_of insert_notification find_row
  create_notification s =
      if smtp.bad_header r.recipient
      then (err server_error, s)
      else let (delivery, w) = smtp.send_message email s.outside in
        let (answer, rows) =
          insert_notification (notification_of (failure_of delivery)) s.notifications in
        (
          answer,
          record { notifications = rows; emails = taken delivery email s.emails; outside = w },
        )

abbrev found_or_404 : Option Notification → Result HttpError Notification
found_or_404 none = err (not_found "Notification not found")
found_or_404 (some n) = ok n

unfoldable pub get_notification :
    {W : Type 0} → String → MailSystem W → Result HttpError Notification
unfolding find_row
get_notification id s = found_or_404 (find_row notification_key id s.notifications)
