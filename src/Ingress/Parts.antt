-- ===== src/Ingress/Parts.antt =====
-- What crates/harness/src/ingress.rs takes from the content of a message: the kind of its event, the
-- hint of a command, and the attachments.
use blue_lagoon.Base.{
  ℕ, ◌-◌, ◌*◌, ◌%◌, ℤ, pos, negsuc, true, false, not, ◌==◌, leb, if◌then◌else◌, Option, none, some,
  unwrap_or, List, [], ◌∷◌, ◌++◌, reverse, Text, codes, is_whitespace, trim, trim_start,
  starts_with,
}
use blue_lagoon.Contracts.Ingress.{
  IngressEventKind, message_created, command_issued, AttachmentReference, CommandHint,
}
use blue_lagoon.Ingress.Update.{TelegramPhotoSize, TelegramDocument, TelegramMessage}

unfoldable pub message_event_kind : TelegramMessage → IngressEventKind
unfolding trim_start starts_with
message_event_kind message = elim message.text [
  | none ↦ message_created
  | some text ↦
      if starts_with (trim_start text) (codes "/") then command_issued else message_created
]

-- The word that was read, in reverse, in front of the words after it.
abbrev flush : Text → List Text → List Text
flush [] words = words
flush (c ∷ w) words = reverse (c ∷ w) ∷ words

scan_words : (word : Text) → Text → List Text
unfolding is_whitespace
scan_words word [] = flush word []
scan_words word (c ∷ s) = elim (is_whitespace c) [
  | true ↦ flush word (scan_words [] s)
  | false ↦ scan_words (c ∷ word) s
]

-- `str::split_whitespace`
unfoldable pub split_whitespace : Text → List Text
unfolding scan_words
split_whitespace s = scan_words [] s

-- `trim_start_matches('/')`
unfoldable pub trim_slashes : Text → Text
trim_slashes [] = []
trim_slashes (c ∷ s) = if c == b'/' then trim_slashes s else c ∷ s

abbrev hint_of : List Text → Option CommandHint
hint_of [] = none
hint_of (command ∷ args) = some (record { command = trim_slashes command; args = args })

unfoldable pub command_hint : TelegramMessage → Option CommandHint
unfolding trim starts_with split_whitespace trim_slashes
command_hint message = elim message.text [
  | none ↦ none
  | some text ↦
      if not (starts_with (trim text) (codes "/"))
      then none
      else hint_of (split_whitespace (trim text))
]

unfoldable pub document_attachment : TelegramDocument → AttachmentReference
document_attachment document = record {
  attachment_id = document.file_id;
  media_type = document.mime_type;
  file_name = document.file_name;
  size_bytes = document.file_size;
}

-- `as u64`
abbrev as_u64 : ℤ → ℕ
as_u64 (pos n) = n
as_u64 (negsuc n) = 0xffffffffffffffff - n

unfoldable pub photo_key : TelegramPhotoSize → ℕ
photo_key photo =
    unwrap_or photo.file_size (as_u64 photo.width * as_u64 photo.height % 0x10000000000000000)

-- `max_by_key`, which gives the last of the largest.
abbrev larger : TelegramPhotoSize → Option TelegramPhotoSize → TelegramPhotoSize
larger photo none = photo
larger photo (some best) = if leb (photo_key photo) (photo_key best) then best else photo

unfoldable pub largest_photo : List TelegramPhotoSize → Option TelegramPhotoSize
unfolding photo_key
largest_photo [] = none
largest_photo (photo ∷ photos) = some (larger photo (largest_photo photos))

abbrev document_attachments : Option TelegramDocument → List AttachmentReference
document_attachments none = []
document_attachments (some document) = document_attachment document ∷ []

abbrev photo_attachments : Option TelegramPhotoSize → List AttachmentReference
photo_attachments none = []
photo_attachments (some photo) =
    record {
      attachment_id = photo.file_id;
      media_type = some (codes "image/jpeg");
      file_name = none;
      size_bytes = photo.file_size;
    }
    ∷ []

unfoldable pub attachment_references : TelegramMessage → List AttachmentReference
unfolding document_attachment largest_photo
attachment_references message =
    document_attachments message.document ++ photo_attachments (largest_photo message.photo)
