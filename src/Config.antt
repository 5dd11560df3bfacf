-- ===== src/Config.antt =====
-- The reading of the configuration in ejfat_packetize_engine.cpp and ejfat_assemble_engine.cpp: `split`
-- and `trim`. A string is the list of its characters' codes.
pub mod Number
pub mod Packetizer
pub mod Sources
pub mod Assembler
mod Tests
use ersap_ejfat.Base.{
  ℕ, ◌≡◌, refl, sym, ap, ◌∙◌, Bool, true, false, ◌&&◌, ◌||◌, Bool-cases, inl, inr, ◌⊎◌, List, [],
  ◌∷◌, ◌++◌, append-nil, append_assoc, leb, ◌==◌, ==_iff, if◌then◌else◌, arith,
}
use ersap_ejfat.Base.Memory.{Run, ok, fault, overread, ◌>>=◌}

-- `std::isspace` in the C locale.
abbrev pub is_space : ℕ → Bool
is_space c = c == 32 || leb 9 c && leb c 13

-- `std::getline` with a delimiter, again and again: `item` is what has been read of a line, and
-- `begun` says whether a character of it, or its delimiter, was there to be read.
unfoldable pub split_from : ℕ → List ℕ → Bool → List ℕ → List (List ℕ)
split_from delim item false [] = []
split_from delim item true [] = item ∷ []
split_from delim item begun (c ∷ cs) =
    if c == delim
    then item ∷ split_from delim [] false cs
    else split_from delim (item ++ (c ∷ [])) true cs

abbrev pub split : List ℕ → ℕ → List (List ℕ)
split s delim = split_from delim [] false s

-- `start` moves over the white space in front.
unfoldable pub skip_spaces : List ℕ → List ℕ
skip_spaces [] = []
skip_spaces (c ∷ cs) = if is_space c then skip_spaces cs else c ∷ cs

-- `end` moves back over white space, not further than to `start`.
unfoldable pub cut_spaces : List ℕ → List ℕ
cut_spaces [] = []
cut_spaces (c ∷ cs) = elim (cut_spaces cs) [
  | [] ↦ if is_space c then [] else c ∷ []
  | d ∷ ds ↦ c ∷ (d ∷ ds)
]

-- On an empty string `end` is moved in front of the begin.
unfoldable pub trim : List ℕ → Run (List ℕ)
trim [] = fault overread
trim (c ∷ cs) = ok (cut_spaces (skip_spaces (c ∷ cs)))

abbrev pub AllSpace : List ℕ → Type 0
AllSpace [] = Unit {0}
AllSpace (c ∷ cs) = (is_space c ≡ true) × AllSpace cs

skip_spaces_lem : (s : List ℕ) → (front : List ℕ) × AllSpace front × (s ≡ front ++ skip_spaces s)
unfolding skip_spaces
skip_spaces_lem [] = ([], tt, refl)
skip_spaces_lem (c ∷ cs) = elim (Bool-cases (is_space c)) [
  | inr word ↦ ([], tt, rw word refl)
  | inl space ↦
      let (front, all, e) = skip_spaces_lem cs in (c ∷ front, (space, all), rw space (ap (◌∷◌ c) e))
]

cut_spaces_lem : (s : List ℕ) → (back : List ℕ) × AllSpace back × (s ≡ cut_spaces s ++ back)
unfolding cut_spaces
cut_spaces_lem [] = ([], tt, refl)
cut_spaces_lem (c ∷ cs) =
    let (back, all, e) = cut_spaces_lem cs in by_rest (cut_spaces cs) back all e
  where
    by_rest :
        (r back : List ℕ)
        → AllSpace back
        → cs ≡ r ++ back
        → (b : List ℕ) × AllSpace b
          × (c ∷ cs
              ≡ (elim r [ [] ↦ if is_space c then [] else c ∷ [] | d ∷ ds ↦ c ∷ (d ∷ ds) ]) ++ b)
    by_rest [] back all e = elim (Bool-cases (is_space c)) [
      | inl space ↦ (c ∷ back, (space, all), rw space (ap (◌∷◌ c) e))
      | inr word ↦ (back, all, rw word (ap (◌∷◌ c) e))
    ]
    by_rest (d ∷ ds) back all e = (back, all, ap (◌∷◌ c) e)

-- The first character is none of white space, and the last.
abbrev pub FirstOk : List ℕ → Type 0
FirstOk [] = Unit {0}
FirstOk (c ∷ cs) = is_space c ≡ false

abbrev pub LastOk : List ℕ → Type 0
LastOk [] = Unit {0}
LastOk (c ∷ []) = is_space c ≡ false
LastOk (c ∷ (d ∷ ds)) = LastOk (d ∷ ds)

skip_spaces-FirstOk : (s : List ℕ) → FirstOk (skip_spaces s)
unfolding skip_spaces
skip_spaces-FirstOk [] = tt
skip_spaces-FirstOk (c ∷ cs) = elim (Bool-cases (is_space c)) [
  | inr word ↦ rw word word
  | inl space ↦ rw space (skip_spaces-FirstOk cs)
]

cut_spaces-LastOk : (s : List ℕ) → LastOk (cut_spaces s)
unfolding cut_spaces
cut_spaces-LastOk [] = tt
cut_spaces-LastOk (c ∷ cs) = by_rest (cut_spaces cs) (cut_spaces-LastOk cs)
  where
    by_rest :
        (r : List ℕ)
        → LastOk r
        → LastOk (elim r [ [] ↦ if is_space c then [] else c ∷ [] | d ∷ ds ↦ c ∷ (d ∷ ds) ])
    by_rest [] h = elim (Bool-cases (is_space c)) [
      | inl space ↦ rw space tt
      | inr word ↦ rw word word
    ]
    by_rest (d ∷ ds) h = h

cut_spaces-FirstOk : (s : List ℕ) → FirstOk s → FirstOk (cut_spaces s)
unfolding cut_spaces
cut_spaces-FirstOk [] h = tt
cut_spaces-FirstOk (c ∷ cs) h = by_rest (cut_spaces cs)
  where
    by_rest :
        (r : List ℕ)
        → FirstOk (elim r [ [] ↦ if is_space c then [] else c ∷ [] | d ∷ ds ↦ c ∷ (d ∷ ds) ])
    by_rest [] = rw h h
    by_rest (d ∷ ds) = h

-- `s` is `r` between white space, and `r` neither begins nor ends with it.
pub record IsTrimmed (s r : List ℕ) : Type 0 where
  pub front : List ℕ
  pub back : List ℕ
  pub front_is : AllSpace front
  pub back_is : AllSpace back
  pub whole : s ≡ front ++ (r ++ back)
  pub first_is : FirstOk r
  pub last_is : LastOk r

-- `trim` of a string that is not empty takes off the white space at both ends, and no more.
pub trim-IsTrimmed :
    (c : ℕ) (cs : List ℕ) → (r : List ℕ) × (trim (c ∷ cs) ≡ ok r) × IsTrimmed (c ∷ cs) r
unfolding trim
trim-IsTrimmed c cs =
    let (front, front_is, e) = skip_spaces_lem (c ∷ cs) in
    let (back, back_is, e') = cut_spaces_lem (skip_spaces (c ∷ cs)) in
    (
      cut_spaces (skip_spaces (c ∷ cs)),
      refl,
      record {
        front = front;
        back = back;
        front_is = front_is;
        back_is = back_is;
        whole = e ∙ ap (◌++◌ front) e';
        first_is = cut_spaces-FirstOk _ (skip_spaces-FirstOk (c ∷ cs));
        last_is = cut_spaces-LastOk (skip_spaces (c ∷ cs));
      },
    )

-- The character code of the colon.
abbrev pub colon : ℕ
colon = 58

-- `strs[0]` and `strs[1]`, trimmed; there may be fewer.
unfoldable pub key_value : List (List ℕ) → Run (List ℕ × List ℕ)
key_value [] = fault overread
key_value (key ∷ []) = fault overread
key_value (key ∷ (val ∷ more)) = trim key >>= λ k. trim val >>= λ v. ok (k, v)

abbrev pub line_fields : List ℕ → Run (List ℕ × List ℕ)
line_fields line = key_value (split line colon)

abbrev pub Free : ℕ → List ℕ → Type 0
Free d [] = Unit {0}
Free d (c ∷ cs) = ((c == d) ≡ false) × Free d cs

split_from_last : (d : ℕ) (item s : List ℕ) → Free d s → split_from d item true s ≡ (item ++ s) ∷ []
unfolding split_from
split_from_last d item [] h = ap (λ k. k ∷ []) (sym (append-nil item))
split_from_last d item (c ∷ cs) h =
    rw h.0 (
      split_from_last d (item ++ (c ∷ [])) cs h.1
      ∙ ap (λ k. k ∷ []) (append_assoc item (c ∷ []) cs))

split_from_first :
    (d : ℕ) (item : List ℕ) (begun : Bool) (s rest : List ℕ)
    → Free d s
    → split_from d item begun (s ++ (d ∷ rest)) ≡ (item ++ s) ∷ split_from d [] false rest
unfolding split_from
split_from_first d item begun [] rest h =
    let same : (d == d) ≡ true = (==_iff d d).1 refl in
    rw same (ap (λ k. k ∷ split_from d [] false rest) (sym (append-nil item)))
split_from_first d item begun (c ∷ cs) rest h = rw h.0 (
    split_from_first d (item ++ (c ∷ [])) true cs rest h.1
    ∙ ap (λ k. k ∷ split_from d [] false rest) (append_assoc item (c ∷ []) cs))

split_two :
    (key : List ℕ) (b : ℕ) (bs : List ℕ)
    → Free colon key
    → Free colon (b ∷ bs)
    → split (key ++ (colon ∷ (b ∷ bs))) colon ≡ key ∷ ((b ∷ bs) ∷ [])
unfolding split_from
split_two key b bs h k =
    split_from_first colon [] false key (b ∷ bs) h
    ∙ ap (◌∷◌ key) (rw k.0 (split_from_last colon (b ∷ []) bs k.1))

-- A line of a key and a value, neither of them empty and both without a colon, with a colon between
-- them, gives the two without the white space at their ends.
pub line_fields-IsTrimmed :
    (a : ℕ) (more : List ℕ) (b : ℕ) (bs : List ℕ)
    → Free colon (a ∷ more)
    → Free colon (b ∷ bs)
    → (k : List ℕ) × (v : List ℕ) × (line_fields ((a ∷ more) ++ (colon ∷ (b ∷ bs))) ≡ ok (k, v))
      × IsTrimmed (a ∷ more) k
      × IsTrimmed (b ∷ bs) v
unfolding key_value
line_fields-IsTrimmed a more b bs h h' =
    let (k, e, t) = trim-IsTrimmed a more in
    let (v, e', t') = trim-IsTrimmed b bs in
    (
      k,
      v,
      ap key_value (split_two (a ∷ more) b bs h h')
          ∙ ap (λ (q : Run (List ℕ)). q >>= λ k. trim (b ∷ bs) >>= λ v. ok (k, v)) e
          ∙ ap (λ (q : Run (List ℕ)). q >>= λ v. ok (k, v)) e',
      t,
      t',
    )

-- A line without a colon, an empty one too, has no `strs[1]`, which the code reads.
pub line_fields_no_colon : (line : List ℕ) → Free colon line → line_fields line ≡ fault overread
unfolding key_value split_from
line_fields_no_colon [] h = refl
line_fields_no_colon (c ∷ cs) h =
    let one : split (c ∷ cs) colon ≡ (c ∷ cs) ∷ [] =
      rw h.0 (split_from_last colon (c ∷ []) cs h.1) in
    ap key_value one
