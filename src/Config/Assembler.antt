-- ===== src/Config/Assembler.antt =====
-- `EjfatAssembleEngine::parseConfigFile` and `createZmqSocket` of ejfat_assemble_engine.cpp.
mod Tests
use ersap_ejfat.Base.{
  ℕ, zero, suc, ◌+◌, ◌-◌, ◌*◌, ◌/◌, ◌%◌, ◌^◌, ◌<◌, ◌≤◌, ◌≡◌, refl, ap, ◌∙◌, leb, Bool, true, false,
  ltb, Bool-cases, inl, inr, Option, none, some, List, [], ◌∷◌, ◌++◌, replicate, drop, length,
  length-append, if◌then◌else◌, ℤ, pos, negsuc, arith,
}
use ersap_ejfat.Base.Memory.{Run, ok, fault, overrun, ◌>>=◌, write, write_fits, write_outside}
use ersap_ejfat.Config.{line_fields}
use ersap_ejfat.Config.Number.{Strtol, unsigned_or, same, says_true}

pub record Engine : Type 0 where
  pub port : ℕ
  pub interface : List ℕ
  pub dest_port : ℕ
  pub dest_ip : List ℕ
  pub debug : Bool
  pub zmq : Bool

-- `if (key == "port")`, which no `else` joins to the others.
unfoldable pub assign_port : Strtol → List ℕ → List ℕ → ℕ × Engine → ℕ × Engine
assign_port strtol key val (errno, e) =
    let r = strtol val errno in
    if same key (b'p' ∷ b'o' ∷ b'r' ∷ b't' ∷ [])
    then (r.1, record e { port = unsigned_or 16 7777 r })
    else (errno, e)

unfoldable pub assign_other : Strtol → List ℕ → List ℕ → ℕ × Engine → ℕ × Engine
assign_other strtol key val (errno, e) =
    let r = strtol val errno in
    if same key (b'd' ∷ b'e' ∷ b's' ∷ b't' ∷ b'P' ∷ b'o' ∷ b'r' ∷ b't' ∷ [])
    then (r.1, record e { dest_port = unsigned_or 16 8888 r })
    else if same key (b'i' ∷ b'n' ∷ b't' ∷ b'e' ∷ b'r' ∷ b'f' ∷ b'a' ∷ b'c' ∷ b'e' ∷ [])
    then (errno, record e { interface = val })
    else if same key (b'd' ∷ b'e' ∷ b's' ∷ b't' ∷ b'I' ∷ b'P' ∷ [])
    then (errno, record e { dest_ip = val })
    else if same key (b'd' ∷ b'e' ∷ b'b' ∷ b'u' ∷ b'g' ∷ [])
    then (errno, record e { debug = if says_true val then true else e.debug })
    else if same key (b'z' ∷ b'm' ∷ b'q' ∷ [])
    then (errno, record e { zmq = if says_true val then true else e.zmq })
    else (errno, e)

unfoldable pub parse_lines : Strtol → List (List ℕ) → ℕ × Engine → Run (ℕ × Engine)
parse_lines strtol [] s = ok s
parse_lines strtol (line ∷ lines) s = line_fields line >>= λ kv.
    parse_lines strtol lines (assign_other strtol kv.0 kv.1 (assign_port strtol kv.0 kv.1 s))

-- `%hu`: the decimal digits of a number below 65536.
abbrev digit : ℕ → ℕ
digit d = 48 + d % 10

abbrev pub print_u16 : ℕ → List ℕ
print_u16 n =
    if ltb n 10
    then digit n ∷ []
    else if ltb n 100
    then digit (n / 10) ∷ digit n ∷ []
    else if ltb n 1000
    then digit (n / 100) ∷ digit (n / 10) ∷ digit n ∷ []
    else if ltb n 10000
    then digit (n / 1000) ∷ digit (n / 100) ∷ digit (n / 10) ∷ digit n ∷ []
    else digit (n / 10000) ∷ digit (n / 1000) ∷ digit (n / 100) ∷ digit (n / 10) ∷ digit n ∷ []

-- `sprintf(dest, "tcp://%s:%hu", destIP, destPort)`, with the 0 at the end.
abbrev pub dest_text : List ℕ → ℕ → List ℕ
dest_text ip port =
    (b't' ∷ b'c' ∷ b'p' ∷ b':' ∷ b'/' ∷ b'/' ∷ []) ++ (ip ++ (b':' ∷ (print_u16 port ++ (0 ∷ []))))

-- `char dest[25]`. `connect` is `zmq_connect` on what is in it.
unfoldable pub create_zmq_socket : (List ℕ → ℤ) → List ℕ → ℕ → Run ℤ
create_zmq_socket connect ip port =
    write (replicate 25 0) 0 (dest_text ip port) >>= λ dest. ok (connect dest)

abbrev pub connected : ℤ → Engine → Option Engine
connected (pos n) e = some e
connected (negsuc k) e = none

-- What is left of `parseConfigFile`: the engine, or the program exits.
unfoldable pub with_socket : (List ℕ → ℤ) → Engine → Run (Option Engine)
with_socket connect e =
    if e.zmq
    then (create_zmq_socket connect e.dest_ip e.dest_port >>= λ err. ok (connected err e))
    else ok (some e)

-- `none` is a file that cannot be opened: no socket is made.
unfoldable pub parse_config_file :
    Strtol → (List ℕ → ℤ) → ℕ → Option (List (List ℕ)) → Engine → Run (Option Engine)
parse_config_file strtol connect errno none e = ok (some e)
parse_config_file strtol connect errno (some lines) e =
    parse_lines strtol lines (errno, e) >>= λ s. with_socket connect s.1

length-dest_text :
    (ip : List ℕ) (port : ℕ) → length (dest_text ip port) ≡ 8 + length ip + length (print_u16 port)
length-dest_text ip port = omega (
  arith,
  length-append {0} (b't' ∷ b'c' ∷ b'p' ∷ b':' ∷ b'/' ∷ b'/' ∷ [])
      (ip ++ (b':' ∷ (print_u16 port ++ (0 ∷ [])))),
  length-append {0} ip (b':' ∷ (print_u16 port ++ (0 ∷ []))),
  length-append {0} (print_u16 port) (0 ∷ []),
)

-- `dest` behind `sprintf`.
abbrev pub padded : List ℕ → ℕ → List ℕ
padded ip port = dest_text ip port ++ drop (length (dest_text ip port)) (replicate 25 0)

create_zmq_socket_lem :
    (connect : List ℕ → ℤ) (ip : List ℕ) (port : ℕ)
    → create_zmq_socket connect ip port ≡ (
        if leb (length ip + length (print_u16 port)) 17
        then ok (connect (padded ip port))
        else fault overrun)
unfolding create_zmq_socket
create_zmq_socket_lem connect ip port =
    let from_start : 0 + length (dest_text ip port) ≡ length (dest_text ip port) = omega arith in
    elim (Bool-cases (leb (length ip + length (print_u16 port)) 17)) [
      | inl room ↦ rw room (
          ap (λ q. q >>= λ dest. ok (connect dest))
            (write_fits (replicate 25 0) 0 (dest_text ip port)
                (ground (arith, room, length-dest_text ip port))
              ∙ ap (λ n. ok (dest_text ip port ++ drop n (replicate 25 0))) from_start))
      | inr long ↦ rw long (
          ap (λ q. q >>= λ dest. ok (connect dest))
            (write_outside (replicate 25 0) 0 (dest_text ip port)
              (ground (arith, long, length-dest_text ip port))))
    ]

-- Let the lines of the file be read. With zmq on, the address and the digits of the port, of up to 15
-- and 5 characters, fit in `dest` if they are 17 together: the socket is connected to the text that
-- stands there, or the program exits; a longer destination is written past the end of `dest`. Without
-- zmq the engine is as the lines say.
pub parse_config_file-bounded :
    (strtol : Strtol) (connect : List ℕ → ℤ) (errno : ℕ) (lines : List (List ℕ)) (e : Engine)
    (out : ℕ × Engine)
    → parse_lines strtol lines (errno, e) ≡ ok out
    → parse_config_file strtol connect errno (some lines) e ≡ (
        if out.1.zmq
        then (if leb (length out.1.dest_ip + length (print_u16 out.1.dest_port)) 17
            then ok (connected (connect (padded out.1.dest_ip out.1.dest_port)) out.1)
            else fault overrun)
        else ok (some out.1))
unfolding parse_config_file with_socket
parse_config_file-bounded strtol connect errno lines e out parsed =
    ap (λ q. q >>= λ s. with_socket connect s.1) parsed
    ∙ ap
        (λ (q : Run ℤ).
          if out.1.zmq then (q >>= λ err. ok (connected err out.1)) else ok (some out.1))
        (create_zmq_socket_lem connect out.1.dest_ip out.1.dest_port)
    ∙ ground arith
