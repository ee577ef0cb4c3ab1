-- ===== src/Repository/Wikis.antt =====
-- The methods of `Repository` on `active_wikis`.
use wikifame.Base.{
  Bool, true, false, ◌&&◌, ◌||◌, List, [], ◌∷◌, map, ltb, ◌==◌, if◌then◌else◌, any, update_where,
  Text, text_eq, sort_by,
}
use wikifame.Models.{Clock, ActiveWiki, Database}

abbrev pub of_wiki : Text → ActiveWiki → Bool
of_wiki wiki row = text_eq row.wiki wiki

abbrev pub seen_again : Clock → ActiveWiki → ActiveWiki
seen_again clock row = record row { last_result_at = clock 0 }

-- The new tables, and whether the wiki was not known before.
unfoldable pub register_active_wiki : Clock → Text → Database → Database × Bool
unfolding any update_where
register_active_wiki clock wiki db =
    if any (of_wiki wiki) db.active_wikis
    then (
      record db { active_wikis = update_where (of_wiki wiki) (seen_again clock) db.active_wikis },
      false,
    )
    else (
      record db {
        active_wikis =
            record { wiki = wiki; first_seen_at = clock 0; last_result_at = clock 0 }
            ∷ db.active_wikis;
      },
      true,
    )

-- The order of `sorted` on texts.
unfoldable pub text_le : Text → Text → Bool
text_le [] t = true
text_le (a ∷ s) [] = false
text_le (a ∷ s) (b ∷ t) = ltb a b || a == b && text_le s t

unfoldable pub active_wikis : Database → List Text
unfolding sort_by text_le
active_wikis db = sort_by text_le (map (λ (row : ActiveWiki). row.wiki) db.active_wikis)
