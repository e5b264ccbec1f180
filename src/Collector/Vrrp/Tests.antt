-- ===== src/Collector/Vrrp/Tests.antt =====
-- collector/vrrp.py on a dump whose state is a list.
use terminal_status_panel.Base.{ℕ, Option, none}
use terminal_status_panel.StateFile.{Json, text, array, object, no_item, item, no_field, field}

abbrev odd : Json ℕ
odd = array (
    item
      (object (
        field "data" (object (field "iname" (text "v1") (field "state" (array no_item) no_field)))
          no_field))
      no_item)

abbrev no_int : ℕ → Option ℕ
no_int f = none
