-- ===== src/Kernel/Attach/Payload.antt =====
-- The text that is written to the attach attribute reads as the four numbers that it was made from.
use usbip_go.Prelude.{ℕ, ◌^◌, ◌<◌, ◌≡◌, ap, ◌∙◌, [], ◌∷◌, some, arith}
use usbip_go.Kernel.Text.{fields, parse_uint, format_uint}
use usbip_go.Kernel.Text.Numbers.{fields-number_space, fields-number, parse_uint-format_uint}
use usbip_go.Kernel.Attach.{format_attach_payload}

-- The attach payload is four words; for a port, a device id and a speed of 32 bits and a file
-- descriptor of 64, they parse as decimal numbers to the port, the descriptor, the id and the speed.
pub format_attach_payload-parsed :
    (port fd dev_id speed : ℕ)
    → port < 2 ^ 32
    → fd < 2 ^ 64
    → dev_id < 2 ^ 32
    → speed < 2 ^ 32
    → (fields (format_attach_payload port fd dev_id speed)
        ≡ format_uint port ∷ format_uint fd ∷ format_uint dev_id ∷ format_uint speed ∷ [])
      × (parse_uint 10 32 (format_uint port) ≡ some port)
      × (parse_uint 10 64 (format_uint fd) ≡ some fd)
      × (parse_uint 10 32 (format_uint dev_id) ≡ some dev_id)
      × (parse_uint 10 32 (format_uint speed) ≡ some speed)
unfolding format_attach_payload
format_attach_payload-parsed port fd dev_id speed p f d s = (
  fields-number_space port _
      ∙ ap (◌∷◌ (format_uint port)) (
          fields-number_space fd _
          ∙ ap (◌∷◌ (format_uint fd))
              (fields-number_space dev_id _ ∙ ap (◌∷◌ (format_uint dev_id)) (fields-number speed))),
  parse_uint-format_uint 32 port p (omega arith),
  parse_uint-format_uint 64 fd f (omega arith),
  parse_uint-format_uint 32 dev_id d (omega arith),
  parse_uint-format_uint 32 speed s (omega arith),
)
