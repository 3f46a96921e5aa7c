-- ===== src/HttpApi/Spa.antt =====
-- `handleSPA` of internal/httpapi/api.go; the embedded files of web/ are a parameter. What
-- http.ServeContent makes of a range or a condition in the request is not looked into.
use localsend_nas.Prelude.{
  ℕ, [], Option, none, some, Str, codes, str_eq, trim_prefix, has_suffix, if◌then◌else◌, Result, ok,
  err,
}
use localsend_nas.HttpApi.{Reply, failure, text}

-- An embedded file that was opened: the results of `Stat`, for its time, and of reading it.
pub record WebFile : Type 0 where
  pub mod_time : Result Str ℕ
  pub read : Result Str Str

-- What is served: the name, the content type if it is set, the time and the content.
pub record Asset : Type 0 where
  pub name : Str
  pub content_type : Str
  pub mod_time : ℕ
  pub content : Str

abbrev pub index_html : Str
index_html = codes "index.html"

-- mimeByExt
unfoldable pub mime_by_ext : Str → Str
unfolding has_suffix
mime_by_ext p =
    if has_suffix p (codes ".html")
    then codes "text/html; charset=utf-8"
    else if has_suffix p (codes ".css")
    then codes "text/css; charset=utf-8"
    else if has_suffix p (codes ".js")
    then codes "text/javascript; charset=utf-8"
    else if has_suffix p (codes ".png")
    then codes "image/png"
    else if has_suffix p (codes ".ttf")
    then codes "font/ttf"
    else []

-- From the open file on.
abbrev pub serve_file : Str → WebFile → Result Reply Asset
serve_file p f = elim f.mod_time [
  | err e ↦ err (failure 500 (text e))
  | ok mod_time ↦ elim f.read [
    | err e ↦ err (failure 500 (text e))
    | ok content ↦
        ok (record {
          name = p;
          content_type = mime_by_ext p;
          mod_time = mod_time;
          content = content;
        })
  ]
]

module _ (files : Str → Option WebFile) where
  -- The page for a path that is no file.
  abbrev pub fallback : Option WebFile → Result Reply Asset
  fallback none = err (failure 404 (text (codes "asset missing")))
  fallback (some f) = serve_file index_html f

  -- handleSPA: what is served, or the error.
  unfoldable pub handle_spa : Str → Result Reply Asset
  unfolding trim_prefix mime_by_ext
  handle_spa url_path =
      let trimmed = trim_prefix url_path (codes "/") in
      let p = if str_eq trimmed [] then index_html else trimmed in
      elim (files p) [ some f ↦ serve_file p f | none ↦ fallback (files index_html) ]
