-- ===== src/Tests/Printing.antt =====
-- Printed FIX messages at inputs where the round trips hold.
use orderbooks.Prelude.{◌≡◌, ◌++◌, List, [], ◌∷◌, length, arith, refl}
use orderbooks.Types.{ask, ioc}
use orderbooks.Messages.{Command, submit}
use orderbooks.Fix.{ok, ◌>>=◌}
use orderbooks.Fix.Parse.{parse, text}
use orderbooks.Fix.Ids.{IsValidCommand}
use orderbooks.Fix.RoundTrip.{is_value, print_digits, print_field}
use orderbooks.Fix.Messages.{Printed, print_fields}
use orderbooks.Fix.Layout.{print_message, IsMessage, meaning}
use orderbooks.Fix.Printing.{parse-print_message}
use orderbooks.Fix.Commands.{print_command, without_handle, parse-print_command}

abbrev an_order : Command
an_order = submit (record { id = 7; px = 5; qty = 10; s = ask; t = ioc; account_id = 3 })

an_order-IsValid : IsValidCommand an_order
an_order-IsValid =
    (record { named = omega arith; below = omega arith }, omega arith, omega arith, omega arith)

parse-print_command_example :
    parse (print_command an_order ++ (b'8' ∷ []))
    ≡ ok (without_handle an_order, length (print_command an_order))
parse-print_command_example = parse-print_command an_order (b'8' ∷ []) an_order-IsValid

-- A cancel of order 7 with a field that the parser does not know.
abbrev withdrawal_fields : List Printed
withdrawal_fields =
    record { width = 4; field = record { tag = 9001; value = text b'x' } }
    ∷ record { width = 2; field = record { tag = 41; value = text b'7' } }
    ∷ []

withdrawal-IsMessage : IsMessage 2 (text b'F') withdrawal_fields
unfolding is_value print_fields print_field print_digits
withdrawal-IsMessage = record {
  kind_fits = refl;
  fields_fit = (
    record { wide = omega arith; narrow = omega arith; tag_fits = omega arith; value_fits = refl },
    (
      record {
        wide = omega arith;
        narrow = omega arith;
        tag_fits = omega arith;
        value_fits = refl;
      },
      tt,
    ),
  );
  size_fits = omega arith;
  some_digit = omega arith;
  digits_fit = omega arith;
}

parse-print_message_example :
    parse (print_message 2 (text b'F') withdrawal_fields ++ (b'8' ∷ [])) ≡ (
      meaning (text b'F') withdrawal_fields >>= λ k.
      ok (k, length (print_message 2 (text b'F') withdrawal_fields)))
parse-print_message_example =
    parse-print_message 2 (text b'F') withdrawal_fields (b'8' ∷ []) withdrawal-IsMessage
