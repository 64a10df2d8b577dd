-- ===== src/Identity/Store/Generated/Sql.antt =====
-- The part of SQL in which the generated texts are written (gen/go/sqlc/query.sql.go): the words of a
-- text, and the statement that they make. Commas and parentheses part words and are dropped.
use Prim.Native.String.{String}
use ztg.Prelude.{
  ℕ, List, [], ◌∷◌, ◌++◌, Bool, true, false, ◌||◌, Option, none, some, if◌then◌else◌, ◌==◌,
}
use ztg.Prelude.Bytes.{codes, bytes_eq}

pub data Column : Type 0 where
  id public_key server_address server_name owner_name capabilities : Column
  created_at last_seen is_trusted trust_updated_at : Column

-- The columns that every query names, in this order.
abbrev pub every_column : List Column
every_column =
    id ∷ public_key ∷ server_address ∷ server_name ∷ owner_name ∷ capabilities ∷ created_at
    ∷ last_seen ∷ is_trusted ∷ trust_updated_at ∷ []

pub data Token : Type 0 where
  select_kw from_kw where_kw limit_kw one_kw order_kw by_kw desc_kw : Token
  insert_kw into_kw values_kw returning_kw update_kw set_kw delete_kw : Token
  equals_kw now_kw identities_kw unknown_word : Token
  column : Column → Token
  argument : ℕ → Token

abbrev keywords : List (List ℕ × Token)
keywords =
    (codes "SELECT", select_kw)
    ∷ (codes "FROM", from_kw)
    ∷ (codes "WHERE", where_kw)
    ∷ (codes "LIMIT", limit_kw)
    ∷ (codes "1", one_kw)
    ∷ (codes "ORDER", order_kw)
    ∷ (codes "BY", by_kw)
    ∷ (codes "DESC", desc_kw)
    ∷ (codes "INSERT", insert_kw)
    ∷ (codes "INTO", into_kw)
    ∷ (codes "VALUES", values_kw)
    ∷ (codes "RETURNING", returning_kw)
    ∷ (codes "UPDATE", update_kw)
    ∷ (codes "SET", set_kw)
    ∷ (codes "DELETE", delete_kw)
    ∷ (codes "=", equals_kw)
    ∷ (codes "NOW", now_kw)
    ∷ (codes "ztg.identities", identities_kw)
    ∷ (codes "id", column id)
    ∷ (codes "public_key", column public_key)
    ∷ (codes "server_address", column server_address)
    ∷ (codes "server_name", column server_name)
    ∷ (codes "owner_name", column owner_name)
    ∷ (codes "capabilities", column capabilities)
    ∷ (codes "created_at", column created_at)
    ∷ (codes "last_seen", column last_seen)
    ∷ (codes "is_trusted", column is_trusted)
    ∷ (codes "trust_updated_at", column trust_updated_at)
    ∷ (codes "$1", argument 1)
    ∷ (codes "$2", argument 2)
    ∷ (codes "$3", argument 3)
    ∷ (codes "$4", argument 4)
    ∷ (codes "$5", argument 5)
    ∷ (codes "$6", argument 6)
    ∷ []

abbrev token_in : List ℕ → List (List ℕ × Token) → Token
token_in word [] = unknown_word
token_in word ((k, t) ∷ ks) = if bytes_eq word k then t else token_in word ks

-- A space, a line's end, a comma or a parenthesis.
abbrev is_separator : ℕ → Bool
is_separator c = c == b' ' || c == b'\n' || c == b',' || c == b'(' || c == b')'

abbrev with_word : List ℕ → List Token → List Token
with_word [] ts = ts
with_word (c ∷ cs) ts = token_in (c ∷ cs) keywords ∷ ts

-- The words of a text, with the characters of the present word so far.
abbrev words : List ℕ → List ℕ → List Token
words word [] = with_word word []
words word (c ∷ cs) = elim (is_separator c) [
  | true ↦ with_word word (words [] cs)
  | false ↦ words (word ++ c ∷ []) cs
]

abbrev after_line : List ℕ → List ℕ
after_line [] = []
after_line (c ∷ cs) = if c == b'\n' then cs else after_line cs

-- The first line of a generated text is a comment.
unfoldable pub tokens : String → List Token
tokens text = words [] (after_line (codes text))

-- What a column is set to.
pub data Source : Type 0 where
  argument_of : ℕ → Source
  now_of : Source

pub data Statement : Type 0 where
  select_first : List Column → Column → ℕ → Statement
  select_newest : List Column → Column → Statement
  insert_into : List Column → List ℕ → List Column → Statement
  update_where : List (Column × Source) → Column → ℕ → Statement
  delete_where : Column → ℕ → Statement

abbrev columns_of : List Token → List Column × List Token
columns_of (column c ∷ ts) = let (cs, rest) = columns_of ts in (c ∷ cs, rest)
columns_of ts = ([], ts)

abbrev arguments_of : List Token → List ℕ × List Token
arguments_of (argument n ∷ ts) = let (ns, rest) = arguments_of ts in (n ∷ ns, rest)
arguments_of ts = ([], ts)

abbrev assignments_of : List Token → List (Column × Source) × List Token
assignments_of (column c ∷ equals_kw ∷ argument n ∷ ts) =
    let (as', rest) = assignments_of ts in ((c, argument_of n) ∷ as', rest)
assignments_of (column c ∷ equals_kw ∷ now_kw ∷ ts) =
    let (as', rest) = assignments_of ts in ((c, now_of) ∷ as', rest)
assignments_of ts = ([], ts)

abbrev select_from : List Column × List Token → Option Statement
select_from
      (
        cs,
        (from_kw
            ∷ identities_kw
            ∷ where_kw
            ∷ column c
            ∷ equals_kw
            ∷ argument n
            ∷ limit_kw
            ∷ one_kw
            ∷ []),
      ) =
    some (select_first cs c n)
select_from (cs, (from_kw ∷ identities_kw ∷ order_kw ∷ by_kw ∷ column c ∷ desc_kw ∷ [])) =
    some (select_newest cs c)
select_from _ = none

abbrev returning_from : List Column → List ℕ → List Column × List Token → Option Statement
returning_from cs ns (rs, []) = some (insert_into cs ns rs)
returning_from cs ns (rs, (_ ∷ _)) = none

abbrev returning : List Column → List ℕ × List Token → Option Statement
returning cs (ns, (returning_kw ∷ ts)) = returning_from cs ns (columns_of ts)
returning cs _ = none

abbrev insert_values : List Column × List Token → Option Statement
insert_values (cs, (values_kw ∷ ts)) = returning cs (arguments_of ts)
insert_values _ = none

abbrev update_from : List (Column × Source) × List Token → Option Statement
update_from (as', (where_kw ∷ column c ∷ equals_kw ∷ argument n ∷ [])) = some (update_where as' c n)
update_from _ = none

abbrev statement_of : List Token → Option Statement
statement_of (select_kw ∷ ts) = select_from (columns_of ts)
statement_of (insert_kw ∷ into_kw ∷ identities_kw ∷ ts) = insert_values (columns_of ts)
statement_of (update_kw ∷ identities_kw ∷ set_kw ∷ ts) = update_from (assignments_of ts)
statement_of
      (delete_kw ∷ from_kw ∷ identities_kw ∷ where_kw ∷ column c ∷ equals_kw ∷ argument n ∷ []) =
    some (delete_where c n)
statement_of _ = none

unfoldable pub parse : String → Option Statement
unfolding tokens
parse text = statement_of (tokens text)
