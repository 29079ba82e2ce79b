-- ===== src/Tests/Sql.antt =====
-- A migration of two statements, with a `;` in a string, in a block comment and in a line comment.
use xchain_decoder.Prelude.{◌≡◌, refl, List, [], ◌∷◌, ◌++◌, map}
use xchain_decoder.Prelude.Text.{Text, codes, join}
use xchain_decoder.Batch.Keys.{trim}
use xchain_decoder.Sql.{
  Mode, plain, moved, opens_backslash_escape, strip_from, split_from, strip_sql_line_comments,
  split_sql_statements, nonempty,
}
use xchain_decoder.Sql.Exact.{IsNoComment, Strips, strip_sql_line_comments_exact}
use xchain_decoder.Sql.Grammar.{Reads}
use xchain_decoder.Sql.Split.Moves.{AreRead}
use xchain_decoder.Sql.Split.{split_sql_statements_exact}

abbrev migration : Text
migration = codes "SET a = 'b;\\';' ; -- c;" ++ 10 ∷ codes "/* d; */ DROP x;"

statements :
    split_sql_statements migration ≡ codes "SET a = 'b;\\';'" ∷ codes "/* d; */ DROP x" ∷ []
unfolding moved opens_backslash_escape strip_from strip_sql_line_comments split_from
    split_sql_statements trim
statements = refl

split_sql_statements_exact_example :
    (first : Text) × (rest : List Text) × (join 59 (first ∷ rest)
      ≡ strip_sql_line_comments migration)
    × AreRead plain first rest
    × (split_sql_statements migration ≡ nonempty (map trim (first ∷ rest)))
split_sql_statements_exact_example = split_sql_statements_exact migration

strip_sql_line_comments_exact_example :
    Strips plain migration (strip_sql_line_comments migration)
    × ((e : Mode) × Reads IsNoComment plain (strip_sql_line_comments migration) e)
strip_sql_line_comments_exact_example = strip_sql_line_comments_exact migration
