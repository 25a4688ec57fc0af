-- ===== src/Ulid/Tests.antt =====
-- Identifiers at concrete inputs.
use contextsnap.Base.{◌≡◌, refl, codes, true, ◌%◌, ◌<◌, ◌^◌}
use contextsnap.Base.Int.{pos}
use contextsnap.Ulid.RoundTrip.{ulid_timestamp-generate_ulid}
use contextsnap.Ulid.Order.{lex_lt, parts_lt, lex_lt-generate_ulid}
use contextsnap.Ulid.Valid.{is_valid_ulid-generate_ulid, ulid_timestamp-lt_of_valid}
use contextsnap.Ulid.{generate_ulid, is_valid_ulid, ulid_timestamp}

generate_test : generate_ulid (pos 1700000000000) 0 31 ≡ codes "01HF7YAT00000000000000000Z"
unfolding generate_ulid
generate_test = refl

ulid_timestamp-generate_ulid_example :
    ulid_timestamp (generate_ulid (pos 1700000000000) 5 6) ≡ 1700000000000 % 2 ^ 48
ulid_timestamp-generate_ulid_example = ulid_timestamp-generate_ulid (pos 1700000000000) 5 6

lex_lt-generate_ulid_example :
    lex_lt (generate_ulid (pos 1) 9 9) (generate_ulid (pos 2) 0 0)
    ≡ parts_lt (1 % 2 ^ 48) (9 % 2 ^ 40) (9 % 2 ^ 40) (2 % 2 ^ 48) (0 % 2 ^ 40) (0 % 2 ^ 40)
lex_lt-generate_ulid_example = lex_lt-generate_ulid (pos 1) (pos 2) 9 9 0 0

is_valid_ulid-generate_ulid_example : is_valid_ulid (generate_ulid (pos 7) 1 2) ≡ true
is_valid_ulid-generate_ulid_example = is_valid_ulid-generate_ulid (pos 7) 1 2

ulid_timestamp-lt_of_valid_example : ulid_timestamp (codes "7zzzzzzzzz0000000000000000") < 2 ^ 48
ulid_timestamp-lt_of_valid_example =
    ulid_timestamp-lt_of_valid (codes "7zzzzzzzzz0000000000000000") (unfold is_valid_ulid in refl)
