-- ===== src/Journal/Polling.antt =====
-- What a page that polls the journal reads.
use ai_lab.Common.{
  ℕ, ◌+◌, ◌-◌, ◌≤◌, ◌<◌, ◌≡◌, refl, sym, ap, ◌∙◌, Bool, List, [], ◌∷◌, ◌++◌, ltb, keep, length,
  drop, arith, append_assoc, append-nil, All, zero, suc, subst,
}
use ai_lab.Common.Newest.{newest, newest_all, newest-newest, length-newest, newest_split}
use ai_lab.Clients.Text.{Text}
use ai_lab.Journal.{Line, Journal, new_journal, write, write_all, since}

-- The lines of a list of texts, numbered from an id.
abbrev pub numbered : ℕ → List (ℕ × Text) → List Line
numbered id [] = []
numbered id ((now, text) ∷ more) =
    record { id = id; at = now; text = text } ∷ numbered (id + 1) more

write_all-lines :
    (size : ℕ) (has_file : Bool) (ws : List (ℕ × Text)) (j : Journal)
    → newest size j.lines ≡ j.lines
    → ((write_all size has_file ws j).lines ≡ newest size (j.lines ++ numbered j.next_id ws))
      × ((write_all size has_file ws j).next_id ≡ j.next_id + length ws)
unfolding write_all write
write_all-lines size has_file [] j h =
    (sym (ap (newest size) (append-nil j.lines) ∙ h), omega arith)
write_all-lines size has_file ((now, text) ∷ ws) j h =
    let line : Line = record { id = j.next_id; at = now; text = text } in
    let kept : newest size (newest size (j.lines ++ line ∷ []))
        ≡ newest size (j.lines ++ line ∷ []) =
      sym (ap (newest size) (append-nil (newest size (j.lines ++ line ∷ []))))
      ∙ newest-newest size (j.lines ++ line ∷ []) []
      ∙ ap (newest size) (append-nil (j.lines ++ line ∷ [])) in
    let (l, n) = write_all-lines size has_file ws (write size has_file now text j) kept in
    (
      l
          ∙ newest-newest size (j.lines ++ line ∷ []) (numbered (j.next_id + 1) ws)
          ∙ ap (newest size) (append_assoc j.lines (line ∷ []) (numbered (j.next_id + 1) ws)),
      omega (arith, n),
    )

abbrev newer : ℕ → Line → Bool
newer after line = ltb after line.id

keep_old :
    (after : ℕ) (xs : List Line) → All (λ line. line.id ≤ after) xs → keep (newer after) xs ≡ []
keep_old after [] h = refl
keep_old after (x ∷ xs) (hx, h) = ground (arith, keep_old after xs h)

keep_new :
    (after : ℕ) (xs : List Line) → All (λ line. after < line.id) xs → keep (newer after) xs ≡ xs
keep_new after [] h = refl
keep_new after (x ∷ xs) (hx, h) = ground (arith, keep_new after xs h)

All-drop : (P : Line → Type 0) (n : ℕ) (xs : List Line) → All P xs → All P (drop n xs)
All-drop P zero xs h = h
All-drop P (suc n) [] h = h
All-drop P (suc n) (x ∷ xs) (hx, h) = All-drop P n xs h

keep-append :
    (test : Line → Bool) (xs ys : List Line) → keep test (xs ++ ys) ≡ keep test xs ++ keep test ys
keep-append test [] ys = refl
keep-append test (x ∷ xs) ys = ground (arith, keep-append test xs ys)

numbered-ids :
    (after id : ℕ) (ws : List (ℕ × Text))
    → after < id
    → All (λ (line : Line). after < line.id) (numbered id ws)
numbered-ids after id [] h = tt
numbered-ids after id (w ∷ ws) h = (h, numbered-ids after (id + 1) ws (omega arith))

numbered-below :
    (last id : ℕ) (ws : List (ℕ × Text))
    → id + length ws ≤ suc last
    → All (λ (line : Line). line.id ≤ last) (numbered id ws)
numbered-below last id [] h = tt
numbered-below last id (w ∷ ws) h = (omega arith, numbered-below last (id + 1) ws (omega arith))

length-numbered : (id : ℕ) (ws : List (ℕ × Text)) → length (numbered id ws) ≡ length ws
length-numbered id [] = refl
length-numbered id (w ∷ ws) = ap suc (length-numbered (id + 1) ws)

keep-newest :
    (after size : ℕ) (xs ys : List Line)
    → All (λ line. line.id ≤ after) xs
    → All (λ line. after < line.id) ys
    → keep (newer after) (newest size (xs ++ ys)) ≡ newest size ys
keep-newest after size xs ys old new =
    let a : ℕ = length xs + length ys - size in
    let b : ℕ = length ys - size in
    ap (keep (newer after)) (newest_split size xs ys)
    ∙ keep-append (newer after) (drop a xs) (drop b ys)
    ∙ ap (λ l. l ++ keep (newer after) (drop b ys))
        (keep_old after (drop a xs) (All-drop (λ line. line.id ≤ after) a xs old))
    ∙ keep_new after (drop b ys) (All-drop (λ line. after < line.id) b ys new)

-- A page that asks for what is newer than the last id it was told gets exactly the lines written in
-- between, oldest first and numbered on from that id, or the newest `size` of them when there are
-- more; and the id it is told is that of the newest line.
pub since-write_all :
    (size : ℕ) (has_file : Bool) (earlier later : List (ℕ × Text))
    → let j = write_all size has_file earlier new_journal in
      since (since 0 j).1 (write_all size has_file later j)
      ≡ (newest size (numbered (length earlier + 1) later), length earlier + length later)
unfolding since
since-write_all size has_file earlier later =
    let j : Journal = write_all size has_file earlier new_journal in
    let (lines, next) = write_all-lines size has_file earlier new_journal (newest_nil size) in
    let kept : newest size j.lines ≡ j.lines =
      ap (newest size) lines
      ∙ newest_all size (newest size (numbered 1 earlier)) (length-newest size (numbered 1 earlier))
      ∙ sym lines in
    let (lines', next') = write_all-lines size has_file later j kept in
    let id : j.next_id ≡ length earlier + 1 = omega (arith, next) in
    let old : All (λ (line : Line). line.id ≤ j.next_id - 1) j.lines =
      subst (All (λ (line : Line). line.id ≤ j.next_id - 1)) (sym lines) (
        All-drop (λ (line : Line). line.id ≤ j.next_id - 1) (length (numbered 1 earlier) - size)
          (numbered 1 earlier) (numbered-below (j.next_id - 1) 1 earlier (omega arith))) in
    let asked : (since (j.next_id - 1) (write_all size has_file later j)).0
        ≡ newest size (numbered (length earlier + 1) later) =
      ap (keep (newer (j.next_id - 1))) lines'
      ∙ keep-newest (j.next_id - 1) size j.lines (numbered j.next_id later) old
          (numbered-ids (j.next_id - 1) j.next_id later (omega arith))
      ∙ ap (λ n. newest size (numbered n later)) id in
    let told : (since (j.next_id - 1) (write_all size has_file later j)).1
        ≡ length earlier + length later =
      omega (arith, next', id) in
    cc
  where
    newest_nil : (n : ℕ) → newest {A = Line} n [] ≡ []
    newest_nil n = newest_all n [] (omega arith)
