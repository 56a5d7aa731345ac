-- ===== src/Notification/Tests.antt =====
-- A notification at concrete inputs, with mail servers that refuse or take everything.
use Prim.Native.String.{◌++◌ as str_append}
use retail_ops_microservices.Base.{String, ◌≡◌, refl, ◌==◌, [], ◌∷◌}
use retail_ops_microservices.Base.Exec.{ok, err}
use retail_ops_microservices.Base.Rows.{find_row}
use retail_ops_microservices.Http.{server_error}
use retail_ops_microservices.Notification.{
  CreateNotificationRequest, workflow_completed, Notification, delivered, undelivered, Smtp,
  MailSystem, Stamp, email, notification_of, create_notification, get_notification,
}
use retail_ops_microservices.Notification.Outcome.{
  Agrees, get_notification-create_notification, create_notification_unstored,
}

abbrev refusing : Smtp (Unit {0})
refusing = record {
  from_address = "shop";
  bad_header = λ recipient. recipient == "ann\nbob";
  send_message = λ e w. (undelivered "refused", w);
}

abbrev taking : Smtp (Unit {0})
taking = record refusing { send_message = λ e w. (delivered, w) }

abbrev stamp : Stamp
stamp = record {
  notification_id = "notification-1";
  provider_reference = "local-mail-1";
  sent_at = 1;
  now = 2;
}

abbrev request : CreateNotificationRequest
request = record {
  order_id = "o1";
  channel = "email";
  recipient = "ann@example.test";
  template_key = workflow_completed;
}

abbrev no_mail : MailSystem (Unit {0})
no_mail = record { notifications = []; emails = []; outside = tt }

get_notification-create_notification_example :
    let (answer, s') = create_notification refusing stamp request no_mail in
    (n : Notification) × (answer ≡ ok n)
    × (get_notification "notification-1" s' ≡ ok n)
    × (n.order_id ≡ "o1")
    × (n.recipient ≡ "ann@example.test")
    × Agrees refusing stamp request no_mail n s'
unfolding find_row notification_of
get_notification-create_notification_example =
    get_notification-create_notification refusing stamp request no_mail refl refl refl

-- A recipient of two lines: no e-mail, no record.
test_bad_header :
    create_notification taking stamp (record request { recipient = "ann\nbob" }) no_mail
    ≡ (err server_error, no_mail)
unfolding create_notification
test_bad_header = refl

abbrev sixteen : String
sixteen = "0123456789abcdef"

abbrev sixty_four : String
sixty_four = str_append sixteen (str_append sixteen (str_append sixteen sixteen))

abbrev long_request : CreateNotificationRequest
long_request = record request { order_id = str_append "o" sixty_four }

create_notification_unstored_example :
    ((create_notification taking stamp long_request no_mail).0 ≡ err server_error)
    × ((create_notification taking stamp long_request no_mail).1.notifications ≡ [])
    × ((create_notification taking stamp long_request no_mail).1.emails
        ≡ email taking stamp long_request ∷ [])
unfolding notification_of
create_notification_unstored_example =
    create_notification_unstored taking stamp long_request no_mail refl refl refl
