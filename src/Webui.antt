-- ===== src/Webui.antt =====
-- internal/webui: the HTML pages, the redirects by cookie and the split by host.
--
-- The embedded files, html/template, the file server and the replies of net/http (Redirect, NotFound
-- and Error) are parameters. A map of pages is a list with the latest entry first.
use rdoc_cam_hub.Common.{
  ℕ, Text, bytes, Bool, not, ◌||◌, Option, none, some, List, [], ◌∷◌, ◌++◌, ◌==◌, text_eq, nat_eq,
  if◌then◌else◌, ◌>>=◌, Unicode, to_lower, has_suffix,
}
use rdoc_cam_hub.Http.{
  Request, Response, Handler, cookie_value, session_cookie_name, html, with_headers,
}

pub record Replies : Type 0 where
  pub redirect : Text → ℕ → Response
  pub not_found : Response
  pub error : Text → ℕ → Response

-- PageData, with PageUser as a pair
pub record PageData : Type 0 where
  pub title : Text
  pub api_base : Text
  pub csrf_meta : Text
  pub version : Text
  pub user : Option (Text × Text)
  pub flash : Text

-- A parsed template: what executing it writes.
abbrev pub Template : Type 0
Template = PageData → Option Text

-- Templates: its pages
abbrev pub Pages : Type 0
Pages = List (Text × Template)

pub record DirEntry : Type 0 where
  pub name : Text
  pub is_dir : Bool

-- The embedded files, and the parser of html/template for a layout with a page.
pub record Assets : Type 0 where
  pub read_file : Text → Option Text
  pub read_dir : Text → Option (List DirEntry)
  pub parse : (layout page : Text) → Option Template

-- webui.Server
pub record UiServer : Type 0 where
  pub templates : Pages
  pub api_base : Text
  pub app_version : Text

module _ (assets : Assets) where
  -- The loop of loadTemplates.
  unfoldable pub load_pages : Text → List DirEntry → Pages → Option Pages
  load_pages layout [] pages = some pages
  load_pages layout (e ∷ entries) pages =
      if e.is_dir || e.name == bytes "layout.html" then load_pages layout entries pages else do
        page ← assets.read_file (bytes "templates/" ++ e.name)
        template ← assets.parse layout page
        load_pages layout entries ((e.name, template) ∷ pages)

  -- loadTemplates
  unfoldable pub load_templates : Option Pages
  unfolding load_pages
  load_templates = do
    layout ← assets.read_file (bytes "templates/layout.html")
    entries ← assets.read_dir (bytes "templates")
    load_pages layout entries []

  -- New
  unfoldable pub new_ui : Text → Text → Option UiServer
  unfolding load_templates
  new_ui api_base version = do
    templates ← load_templates
    some (record { templates = templates; api_base = api_base; app_version = version })

unfoldable pub page_of : Text → Pages → Option Template
page_of name [] = none
page_of name ((n, t) ∷ rest) = if n == name then some t else page_of name rest

-- Templates.Render, with `none` for its error
unfoldable pub render : Pages → ℕ → Text → PageData → Option Response
unfolding page_of
render pages status name page_data = do
  template ← page_of name pages
  written ← template page_data
  some (record {
    status = status;
    headers = (bytes "Content-Type", bytes "text/html; charset=utf-8") ∷ [];
    cookies = [];
    body = html written;
  })

abbrev page_data : UiServer → Text → PageData
page_data s title = record {
  title = title;
  api_base = s.api_base;
  csrf_meta = [];
  version = s.app_version;
  user = none;
  flash = [];
}

-- " · CamHub", of which the dot is two bytes in UTF-8
abbrev camhub_suffix : Text
camhub_suffix = 0x20 ∷ 0xC2 ∷ 0xB7 ∷ bytes " CamHub"

module _ (replies : Replies) where
  abbrev or_internal_error : Option Response → Response
  or_internal_error none = replies.error (bytes "internal error") 500
  or_internal_error (some res) = res

  -- LoginPage
  unfoldable pub login_page : {S : Type 0} → UiServer → Handler S
  unfolding render
  login_page s r w = (
    or_internal_error (
        render s.templates 200 (bytes "login.html")
          (page_data s (bytes "Sign in" ++ camhub_suffix))),
    w,
  )

  -- Dashboard
  unfoldable pub dashboard : {S : Type 0} → UiServer → Handler S
  unfolding render
  dashboard s r w = (
    or_internal_error (
        render s.templates 200 (bytes "dashboard.html")
          (page_data s (bytes "Fleet" ++ camhub_suffix))),
    w,
  )

  -- RequireSessionCookie
  unfoldable pub require_session_cookie : {S : Type 0} → Handler S → Handler S
  unfolding cookie_value
  require_session_cookie next r w =
      if cookie_value r session_cookie_name == []
      then (replies.redirect (bytes "/login") 303, w)
      else next r w

  -- RedirectIfAuthenticated
  unfoldable pub redirect_if_authenticated : {S : Type 0} → Text → Handler S → Handler S
  unfolding cookie_value
  redirect_if_authenticated target next r w =
      if not (cookie_value r session_cookie_name == [])
      then (replies.redirect target 303, w)
      else next r w

-- StaticHandler, in front of the file server
unfoldable pub static_handler : {S : Type 0} → (Request → Response) → Handler S
static_handler file_server r w =
    (with_headers ((bytes "Cache-Control", bytes "public, max-age=300") ∷ []) (file_server r), w)

-- The text before the last ':'.
unfoldable pub before_port : Text → Option Text
before_port [] = none
before_port (c ∷ rest) =
    let later = before_port rest in
    elim later [ some host ↦ some (c ∷ host) | none ↦ if c == b':' then some [] else none ]

unfoldable pub less_port : Text → Option Text → Text
unfolding has_suffix
less_port h none = h
less_port h (some host) = if has_suffix host (bytes "]") then h else host

-- hostname
unfoldable pub hostname : Unicode → Text → Text
unfolding to_lower before_port less_port
hostname u h = less_port (to_lower u h) (before_port (to_lower u h))

-- HostRouter
pub record HostRouter (S : Type 0) : Type 0 where
  pub app_host : Text
  pub api_host : Text
  pub ui_handler : Handler S
  pub api_handler : Handler S

-- HostRouter.ServeHTTP
unfoldable pub serve_host : {S : Type 0} → Unicode → Replies → HostRouter S → Handler S
unfolding hostname
serve_host u replies h r w =
    if h.app_host == [] || h.api_host == []
    then h.api_handler r w
    else if hostname u r.host == h.app_host
    then h.ui_handler r w
    else if hostname u r.host == h.api_host
    then h.api_handler r w
    else (replies.not_found, w)
