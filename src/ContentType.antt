-- ===== src/ContentType.antt =====
-- src/content_type.cc and include/content_type.h
use ucla_cs130_googolplex.Prelude.{Bytes, codes, [], ◌∷◌, none, some}
use ucla_cs130_googolplex.Std.Dict.{Dict, find}

-- `content_type_map`, in the order of its keys
abbrev pub content_type_map : Dict Bytes
content_type_map =
    (codes ".css", codes "text/css")
    ∷ (codes ".gif", codes "image/gif")
    ∷ (codes ".htm", codes "text/html")
    ∷ (codes ".html", codes "text/html")
    ∷ (codes ".jpeg", codes "image/jpeg")
    ∷ (codes ".jpg", codes "image/jpeg")
    ∷ (codes ".js", codes "text/javascript")
    ∷ (codes ".png", codes "image/png")
    ∷ (codes ".txt", codes "text/plain")
    ∷ (codes ".zip", codes "application/zip")
    ∷ []

-- `get_content_type(extension).content_type_str`
unfoldable pub get_content_type : Bytes → Bytes
unfolding find
get_content_type extension = elim (find extension content_type_map) [
  | some type ↦ type
  | none ↦ codes "text/plain"
]
