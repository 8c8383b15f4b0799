-- ===== src/Http/CommaList.antt =====
-- src/http/CommaListIterator.cpp. The iterator is the text that it has not passed yet.
use cupcake.Base.{
  ℕ, zero, suc, ◌+◌, ◌-◌, Bool, ◌&&◌, ◌||◌, [], Bytes, length, drop, get_or, ltb, ◌==◌,
  if◌then◌else◌,
}
use cupcake.StringRef.Compare.{substring}
use cupcake.StringRef.Search.{found, missing, fault, index_of_char}

-- A space or a tab.
abbrev pub is_blank : ℕ → Bool
is_blank c = c == 0x20 || c == 0x09

-- The first loop of `trimWhitespace`: from an index on, over at most this many bytes.
unfoldable pub skip_blanks : ℕ → Bytes → ℕ → ℕ
skip_blanks zero text i = i
skip_blanks (suc f) text i =
    let rest = skip_blanks f text (i + 1) in
    if ltb i (length text) && is_blank (get_or text i 0) then rest else i

-- The second loop: down from an index, to at least `start`.
unfoldable pub skip_blanks_back : ℕ → Bytes → ℕ → ℕ
skip_blanks_back start text zero = zero
skip_blanks_back start text (suc i) =
    let rest = skip_blanks_back start text i in
    if ltb start (suc i) && is_blank (get_or text (suc i) 0) then rest else suc i

unfoldable pub trim_whitespace : Bytes → Bytes
unfolding skip_blanks skip_blanks_back
trim_whitespace text =
    let start = skip_blanks (length text) text 0 in
    let end_index = skip_blanks_back start text (length text - 1) in
    if length text == 0 then [] else substring text start (end_index + 1)

-- `next`: the element, and the text left. A search from the index 0 has no fault.
unfoldable pub next : Bytes → Bytes × Bytes
unfolding index_of_char trim_whitespace
next text = elim (index_of_char text b',') [
  | found i ↦ (trim_whitespace (substring text 0 i), drop (i + 1) text)
  | missing ↦ (trim_whitespace text, [])
  | fault ↦ (trim_whitespace text, [])
]

-- The loop of `getLast`. Every call of `next` but the last takes a byte at least.
unfoldable pub last_rounds : ℕ → Bytes → Bytes
unfolding next
last_rounds zero text = []
last_rounds (suc f) text =
    let rest = last_rounds f (next text).1 in
    if length (next text).1 == 0 then (next text).0 else rest

-- `getLast`
unfoldable pub get_last : Bytes → Bytes
unfolding last_rounds
get_last text = last_rounds (suc (length text)) text
