-- ===== src/Config/Packetizer/Tests.antt =====
-- Configuration files of the packetizer engine.
use ersap_ejfat.Base.{
  ℕ, ◌+◌, ◌-◌, ◌*◌, ◌^◌, ◌≡◌, refl, some, List, [], ◌∷◌, ◌++◌, replicate, Bool-cases, inl, inr, ltb,
  if◌then◌else◌, pos,
}
use ersap_ejfat.Base.Memory.{ok}
use ersap_ejfat.Config.{split_from, skip_spaces, cut_spaces, trim, key_value, line_fields}
use ersap_ejfat.Config.Number.{Strtol, erange}
use ersap_ejfat.Config.Packetizer.{Engine, defaults, parse_config_file}
use ersap_ejfat.Config.Packetizer.Errno.{
  KeepsErrno, delay_name, data_id_name, parse_config_file_stale_errno,
}
use ersap_ejfat.Config.Packetizer.Lines.{
  last_value, any_true, host_name, interface_name, debug_name, parse_config_file-last,
}

abbrev number : ℕ → List ℕ → ℕ
number n [] = n
number n (c ∷ cs) = number (n * 10 + (c - 48)) cs

-- On digits.
abbrev pub strtol : Strtol
strtol val errno =
    let n = number 0 val in if ltb n (2 ^ 63) then (pos n, errno) else (pos (2 ^ 63 - 1), erange)

at_host :
    line_fields (b'h' ∷ b'o' ∷ b's' ∷ b't' ∷ b':' ∷ 32 ∷ b'a' ∷ [])
    ≡ ok ((b'h' ∷ b'o' ∷ b's' ∷ b't' ∷ []), (b'a' ∷ []))
unfolding key_value split_from trim skip_spaces cut_spaces
at_host = refl

at_mtu :
    line_fields (b'm' ∷ b't' ∷ b'u' ∷ b':' ∷ b'9' ∷ b'0' ∷ [])
    ≡ ok ((b'm' ∷ b't' ∷ b'u' ∷ []), (b'9' ∷ b'0' ∷ []))
unfolding key_value split_from trim skip_spaces cut_spaces
at_mtu = refl

at_debug :
    line_fields (b'd' ∷ b'e' ∷ b'b' ∷ b'u' ∷ b'g' ∷ b':' ∷ b'o' ∷ b'n' ∷ [])
    ≡ ok ((b'd' ∷ b'e' ∷ b'b' ∷ b'u' ∷ b'g' ∷ []), (b'o' ∷ b'n' ∷ []))
unfolding key_value split_from trim skip_spaces cut_spaces
at_debug = refl

at_other :
    line_fields (b'h' ∷ b'o' ∷ b's' ∷ b't' ∷ 32 ∷ b':' ∷ b'b' ∷ [])
    ≡ ok ((b'h' ∷ b'o' ∷ b's' ∷ b't' ∷ []), (b'b' ∷ []))
unfolding key_value split_from trim skip_spaces cut_spaces
at_other = refl

at_delay :
    line_fields (
      b'd' ∷ b'e' ∷ b'l' ∷ b'a' ∷ b'y' ∷ b':' ∷ b'9' ∷ b'9' ∷ b'9' ∷ b'9' ∷ b'9' ∷ b'9' ∷ b'9'
      ∷ b'9' ∷ b'9' ∷ b'9' ∷ b'9' ∷ b'9' ∷ b'9' ∷ b'9' ∷ b'9' ∷ b'9' ∷ b'9' ∷ b'9' ∷ b'9' ∷ b'9'
      ∷ [])
    ≡ ok (
      (b'd' ∷ b'e' ∷ b'l' ∷ b'a' ∷ b'y' ∷ []),
      (b'9' ∷ b'9' ∷ b'9' ∷ b'9' ∷ b'9' ∷ b'9' ∷ b'9' ∷ b'9' ∷ b'9' ∷ b'9' ∷ b'9' ∷ b'9' ∷ b'9'
          ∷ b'9' ∷ b'9' ∷ b'9' ∷ b'9' ∷ b'9' ∷ b'9' ∷ b'9' ∷ []),
    )
unfolding key_value split_from trim skip_spaces cut_spaces
at_delay = refl

at_id :
    line_fields (b'd' ∷ b'a' ∷ b't' ∷ b'a' ∷ b'I' ∷ b'd' ∷ b':' ∷ b'0' ∷ [])
    ≡ ok ((b'd' ∷ b'a' ∷ b't' ∷ b'a' ∷ b'I' ∷ b'd' ∷ []), (b'0' ∷ []))
unfolding key_value split_from trim skip_spaces cut_spaces
at_id = refl

abbrev four_lines : List (List ℕ)
four_lines =
    (b'h' ∷ b'o' ∷ b's' ∷ b't' ∷ b':' ∷ 32 ∷ b'a' ∷ [])
    ∷ (b'm' ∷ b't' ∷ b'u' ∷ b':' ∷ b'9' ∷ b'0' ∷ [])
    ∷ (b'd' ∷ b'e' ∷ b'b' ∷ b'u' ∷ b'g' ∷ b':' ∷ b'o' ∷ b'n' ∷ [])
    ∷ (b'h' ∷ b'o' ∷ b's' ∷ b't' ∷ 32 ∷ b':' ∷ b'b' ∷ [])
    ∷ []

abbrev four_fields : List (List ℕ × List ℕ)
four_fields =
    ((b'h' ∷ b'o' ∷ b's' ∷ b't' ∷ []), (b'a' ∷ []))
    ∷ ((b'm' ∷ b't' ∷ b'u' ∷ []), (b'9' ∷ b'0' ∷ []))
    ∷ ((b'd' ∷ b'e' ∷ b'b' ∷ b'u' ∷ b'g' ∷ []), (b'o' ∷ b'n' ∷ []))
    ∷ ((b'h' ∷ b'o' ∷ b's' ∷ b't' ∷ []), (b'b' ∷ []))
    ∷ []

parse_config_file-last_example :
    (out : ℕ × Engine) × (parse_config_file strtol 0 (some four_lines) defaults ≡ ok out)
    × (out.1.host ≡ last_value host_name four_fields defaults.host)
    × (out.1.interface ≡ last_value interface_name four_fields defaults.interface)
    × (out.1.debug ≡ any_true debug_name four_fields defaults.debug)
parse_config_file-last_example =
    parse_config_file-last strtol 0 four_lines four_fields defaults
      (at_host, (at_mtu, (at_debug, (at_other, tt))))

last_host : last_value host_name four_fields defaults.host ≡ b'b' ∷ []
last_host = refl

strtol-KeepsErrno : KeepsErrno strtol
strtol-KeepsErrno val errno = elim (Bool-cases (ltb (number 0 val) (2 ^ 63))) [
  | inl fits ↦ inl (rw fits refl)
  | inr large ↦ inr (rw large refl)
]

abbrev nines : List ℕ
nines = replicate 20 b'9'

abbrev host_line : List ℕ
host_line = b'h' ∷ b'o' ∷ b's' ∷ b't' ∷ b':' ∷ 32 ∷ b'a' ∷ []

abbrev a_host : List ℕ × List ℕ
a_host = (host_name, b'a' ∷ [])

-- A delay that is out of range, and the data id 0, between lines of the host.
parse_config_file_stale_errno_example :
    (out : ℕ × Engine) × (parse_config_file strtol 0
        (some (
          (host_line ∷ [])
          ++ (delay_name ++ b':' ∷ nines)
            ∷ ((host_line ∷ []) ++ (data_id_name ++ b':' ∷ b'0' ∷ []) ∷ (host_line ∷ []))))
        defaults
      ≡ ok out)
    × (out.1.data_id ≡ 1)
parse_config_file_stale_errno_example =
    parse_config_file_stale_errno strtol 0 (host_line ∷ []) (host_line ∷ []) (host_line ∷ [])
      (delay_name ++ b':' ∷ nines) (data_id_name ++ b':' ∷ b'0' ∷ []) nines (b'0' ∷ [])
      (a_host ∷ []) (a_host ∷ []) (a_host ∷ []) defaults strtol-KeepsErrno (at_host, tt) at_delay
      (λ errno. refl) (at_host, tt) at_id (λ errno. refl) (at_host, tt) (refl, tt)
