-- ===== src/Tests/Std.antt =====
-- The models of Go's packages strings, strconv and net at inputs whose results are documented.
use keelix.Prelude.{◌≡◌, refl, true, some, none, ◌∷◌, []}
use keelix.Text.{
  codes, atoi, itoa, trim_space, contains, equal_fold, trim_prefix, last_index_byte, text_lt,
}
use keelix.Net.{parse_ip, v4, v6}

decimal :
    (atoi (codes "+8080") ≡ some 8080)
    × (atoi (codes "80x") ≡ none)
    × (atoi (codes "99999999999999999999") ≡ none)
    × (itoa 8080 ≡ codes "8080")
    × (itoa 0 ≡ codes "0")
unfolding atoi itoa
decimal = (refl, refl, refl, refl, refl)

strings :
    (trim_space (codes "  a b ") ≡ codes "a b")
    × (contains (codes "tcp dport 22") (codes "port") ≡ true)
    × (equal_fold (codes "DroP") (codes "drop") ≡ true)
    × (trim_prefix (codes "port 80") (codes "port ") ≡ codes "80")
    × (last_index_byte (codes "a:b:c") b':' ≡ some 3)
    × (text_lt (codes "EXP001") (codes "HST001") ≡ true)
unfolding trim_space contains equal_fold trim_prefix last_index_byte text_lt
strings = (refl, refl, refl, refl, refl, refl)

addresses4 :
    (parse_ip (codes "192.168.1.7") ≡ some (v4 192 168 1 7))
    × (parse_ip (codes "192.168.1") ≡ none)
    × (parse_ip (codes "192.168.1.07") ≡ none)
    × (parse_ip (codes "192.168.1.256") ≡ none)
    × (parse_ip (codes "localhost") ≡ none)
    × (parse_ip (codes "::ffff:10.0.0.1") ≡ some (v4 10 0 0 1))
unfolding parse_ip
addresses4 = (refl, refl, refl, refl, refl, refl)

addresses6 :
    (parse_ip (codes "::1") ≡ some (v6 (0 ∷ 0 ∷ 0 ∷ 0 ∷ 0 ∷ 0 ∷ 0 ∷ 1 ∷ [])))
    × (parse_ip (codes "fe80::aB") ≡ some (v6 (0xfe80 ∷ 0 ∷ 0 ∷ 0 ∷ 0 ∷ 0 ∷ 0 ∷ 0xab ∷ [])))
    × (parse_ip (codes "1:2:3:4:5:6:7:8") ≡ some (v6 (1 ∷ 2 ∷ 3 ∷ 4 ∷ 5 ∷ 6 ∷ 7 ∷ 8 ∷ [])))
    × (parse_ip (codes "1:2:3:4:5:6:7:8::") ≡ none)
    × (parse_ip (codes "1::2::3") ≡ none)
    × (parse_ip (codes "fe80::1%eth0") ≡ none)
    × (parse_ip (codes "1:2:3") ≡ none)
unfolding parse_ip
addresses6 = (refl, refl, refl, refl, refl, refl, refl)
