-- ===== src/Examples/Parsers.antt =====
-- Theorems about the parsers, at concrete inputs.
use sub_hub.Common.{
  is_digit, ◌+◌, ◌*◌, ◌≡◌, refl, some, ◌∷◌, ◌++◌, lit, arith, trim, replace_char, split_once,
  split_at,
}
use sub_hub.Common.Decimal.{decimal}
use sub_hub.Parse.Authority.{split_authority, query_pairs}
use sub_hub.Parse.Authority.RoundTrip.{split_authority-append}
use sub_hub.Parse.Dates.{date_str_to_epoch_ms}
use sub_hub.Parse.Dates.Calendar.{date}
use sub_hub.Parse.Dates.RoundTrip.{date_text, time_text, date_str_to_epoch_ms-date_text}

date_str_to_epoch_ms-date_text_example :
    date_str_to_epoch_ms (date_text (date 59) ++ 84 ∷ time_text 23 59 60)
    ≡ some (59 * 86400000 + (23 * 3600 + 59 * 60 + 60) * 1000)
date_str_to_epoch_ms-date_text_example =
    date_str_to_epoch_ms-date_text 59 23 59 60 (omega arith) (omega arith) (omega arith)
      (omega arith)

-- A day that its month does not have is read as a day of the next month.
february_31 : date_str_to_epoch_ms (lit "2026-02-31") ≡ date_str_to_epoch_ms (lit "2026-03-03")
unfolding date_str_to_epoch_ms trim replace_char split_once split_at
february_31 = refl

split_authority-append_example :
    split_authority
      (λ s. s)
      ((lit "me@x" ++ 64 ∷ (lit "::1" ++ 58 ∷ (decimal 443 ++ lit "/"))) ++ 63 ∷ lit "SNI=a&b")
    ≡ some (record {
      userinfo = lit "me@x";
      host = lit "::1";
      port = 443;
      query = query_pairs (λ s. s) (lit "SNI=a&b");
    })
unfolding is_digit
split_authority-append_example =
    split_authority-append (λ s. s) (lit "me@x") (lit "::1") (lit "/") (lit "SNI=a&b") 443
      (refl, (refl, (refl, (refl, tt)))) (refl, (refl, (refl, tt))) (refl, (refl, (refl, tt))) refl
      (omega arith) (omega arith) refl ((refl, tt), (refl, tt), (refl, tt))
