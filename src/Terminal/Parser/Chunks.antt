-- ===== src/Terminal/Parser/Chunks.antt =====
-- Splitting the input of the parser of crates/rdt-terminal/src/parser.rs into chunks: what the rest of
-- a text does after its first part.
use remote_desktop_tool.Prelude.{
  ℕ, ◌≡◌, refl, sym, ap, ◌∙◌, List, [], ◌∷◌, ◌++◌, Option, none, some, ◌>>=◌, append_assoc,
}
use remote_desktop_tool.Terminal.Parser
use remote_desktop_tool.Terminal.Parser.Types.{Parser, Action}

-- Actions that come after others.
abbrev pub after : List Action → Parser × List Action → Option (Parser × List Action)
after first r = some (r.0, first ++ r.1)

-- The result of a chunk after another.
abbrev pub and_then : Parser × List Action → List ℕ → Option (Parser × List Action)
and_then s ys = Parser.advance s.0 ys >>= after s.1

after-after :
    (first second : List Action) (m : Option (Parser × List Action))
    → m >>= after second >>= after first ≡ m >>= after (first ++ second)
after-after first second none = refl
after-after first second (some r) =
    ap (λ (l : List Action). some (r.0, l)) (sym (append_assoc first second r.1))

after-and_then :
    (first : List Action) (ys : List ℕ) (m : Option (Parser × List Action))
    → m >>= (λ s. and_then s ys) >>= after first ≡ m >>= after first >>= (λ s. and_then s ys)
after-and_then first ys none = refl
after-and_then first ys (some r) = after-after first r.1 (Parser.advance r.0 ys)

after_nothing : (m : Option (Parser × List Action)) → m ≡ m >>= after []
after_nothing none = refl
after_nothing (some r) = refl

-- The rest of the input, behind one byte and behind the rest of its chunk.
chunk-append :
    (xs ys : List ℕ) (m : Option (Parser × List Action))
    → ((q : Parser) → Parser.advance q (xs ++ ys) ≡ Parser.advance q xs >>= (λ s. and_then s ys))
    → m >>= (λ s. Parser.advance s.0 (xs ++ ys) >>= after s.1)
      ≡ m >>= (λ s. Parser.advance s.0 xs >>= after s.1) >>= (λ s. and_then s ys)
chunk-append xs ys none h = refl
chunk-append xs ys (some s) h =
    ap (λ n. n >>= after s.1) (h s.0) ∙ after-and_then s.1 ys (Parser.advance s.0 xs)

pub parser-append :
    (xs ys : List ℕ) (p : Parser)
    → Parser.advance p (xs ++ ys) ≡ Parser.advance p xs >>= (λ s. and_then s ys)
unfolding Parser.advance
parser-append [] ys p = after_nothing (Parser.advance p ys)
parser-append (x ∷ xs) ys p = chunk-append xs ys (Parser.step p x) (parser-append xs ys)
