-- ===== src/Output/Tests.antt =====
-- A file of one byte, and a buffer of three.
use ersap_ejfat.Base.{
  ℕ, ◌+◌, ◌≡◌, refl, none, List, [], ◌∷◌, ◌++◌, ◌==◌, length, take, if◌then◌else◌, arith,
}
use ersap_ejfat.Base.Memory.{ok, fault, overread}
use ersap_ejfat.Output.{
  hex, line, ending, heading, print_loop, print_bytes, File, print_file_bytes, returns_zero,
  write_buffer,
}
use ersap_ejfat.Output.Laws.{bytes_of, PrintsOk, print_file_bytes-write_buffer}

abbrev one_byte : File
one_byte = record { content = 7 ∷ []; position = 1 }

abbrev three : List ℕ
three = 10 ∷ 11 ∷ 12 ∷ []

prints_three : print_bytes three 3 none ≡ ok (line 1 8 ∷ hex 10 ∷ hex 11 ∷ hex 12 ∷ ending ∷ [])
unfolding print_bytes print_loop heading
prints_three = refl

reads_too_far : print_bytes three 4 none ≡ fault overread
unfolding print_bytes print_loop
reads_too_far = refl

print_file_bytes-write_buffer_example :
    (written : File) × (write_buffer three 3 (3 ∷ []) one_byte ≡ ok (returns_zero written))
    × (written.content ≡ one_byte.content ++ take 3 three)
    × (bytes_of (print_file_bytes 0 written 4 none).0 ≡ take 4 (one_byte.content ++ take 3 three))
    × ((print_file_bytes 0 written 4 none).1.content ≡ written.content)
    × ((print_file_bytes 0 written 4 none).1.position
        ≡ (if 4 == 0 then 0 else length one_byte.content + 3))
    × PrintsOk (bytes_of (print_file_bytes 0 written 4 none).0) (print_bytes written.content 4 none)
print_file_bytes-write_buffer_example =
    print_file_bytes-write_buffer three [] 3 4 0 one_byte none (omega arith) (omega arith) refl
      (omega arith)
