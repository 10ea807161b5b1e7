-- ===== src/Newsletter/Message.antt =====
-- What `import_postmark_newsletter` of `feeds/services.py` reads of a message, with its helpers.
use daily_firehose.Common.{
  ℕ, String, Option, none, some, truthy, prefix, rstrip, ◌+++◌, if◌then◌else◌,
}
use daily_firehose.Delivery.Json.{
  Json, null, boolean, integer, float, text, array, object, no_items, item, Fields, get, is_truthy,
  as_dict, to_text, text_or_empty,
}
use daily_firehose.Newsletter.{Env, either}

module _ {W : Type 0} (env : Env W) where
  unfoldable pub bounded : Json → ℕ → String
  bounded value limit = prefix limit (text_or_empty env.repr value)

  unfoldable pub newsletter_archive_url : String → String → String
  newsletter_archive_url base_url public_id =
      env.join_url (rstrip 47 base_url +++ "/") (env.archive_path public_id)

  -- the address of a `Full` value: of an object, or of the first object of a list
  abbrev pub full_email : Json → Option String
  full_email (object fields) =
      if is_truthy (get "Email" fields) then some (to_text env.repr (get "Email" fields)) else none
  full_email (array no_items) = none
  full_email (array (item (object fields) rest)) =
      if is_truthy (get "Email" fields) then some (to_text env.repr (get "Email" fields)) else none
  full_email (array (item null rest)) = none
  full_email (array (item (boolean b) rest)) = none
  full_email (array (item (integer negative n) rest)) = none
  full_email (array (item (float s) rest)) = none
  full_email (array (item (text s) rest)) = none
  full_email (array (item (array xs) rest)) = none
  full_email null = none
  full_email (boolean b) = none
  full_email (integer negative n) = none
  full_email (float s) = none
  full_email (text s) = none

  abbrev pub address_or : Option String → Json → String
  address_or (some email) value = email
  address_or none value = text_or_empty env.repr value

  unfoldable pub postmark_address : Fields → String → String
  postmark_address payload key =
      address_or (full_email (get (key +++ "Full") payload)) (get key payload)

  abbrev pub full_name : Option Fields → String
  full_name none = ""
  full_name (some fields) = text_or_empty env.repr (get "Name" fields)

  unfoldable pub postmark_name : Fields → String → String
  postmark_name payload key = full_name (as_dict (get (key +++ "Full") payload))

  unfoldable pub message_id_of : Fields → String
  message_id_of payload =
      text_or_empty env.repr (either (get "MessageID" payload) (get "MessageId" payload))

  -- `_aware_datetime`
  abbrev pub received_at : ℕ → Option ℕ → ℕ
  received_at now none = now
  received_at now (some t) = t

  abbrev pub sanitized : String → String
  sanitized html = if truthy html then env.sanitize html else ""

  abbrev pub body_text : Fields → String
  body_text payload =
      let plain = text_or_empty env.repr (get "TextBody" payload) in
      if truthy plain then plain else text_or_empty env.repr (get "HtmlBody" payload)
