-- ===== src/ReplyFlow/Phrases.antt =====
-- reply_flow/reply_gate.py: what a message looks like, by the phrases that it holds.
use openqqwaifu.Prelude.{
  ℕ, String, Bool, true, false, not, ◌&&◌, ◌||◌, List, [], ◌∷◌, str_eq, ltb, leb, if◌then◌else◌,
  any, count_where, length,
}
use openqqwaifu.Platform.{codes}

-- `str.strip`; " ".join(text.split()).strip(); the text in lower case without white space; `a in b`; and
-- whether [a-z]{2,}|\d{3,} is found in a text.
pub record Words : Type 0 where
  pub strip : String → String
  pub squash : String → String
  pub compact : String → String
  pub contains : String → String → Bool
  pub has_code : String → Bool

-- any(pattern in text for pattern in patterns)
abbrev pub holds_any : Words → List String → String → Bool
holds_any words patterns text = any (λ p. words.contains p text) patterns

abbrev pub is_one_of : List String → String → Bool
is_one_of texts text = any (λ t. str_eq t text) texts

abbrev pub confirmations : List String
confirmations =
    "好的你帮我查查吧" ∷ "好你帮我查查吧" ∷ "帮我查查吧" ∷ "你帮我查查吧" ∷ "帮我查一下吧" ∷ "你帮我查一下吧" ∷ "那你帮我查查吧" ∷ "那你帮我查一下吧"
    ∷ "查查吧" ∷ "查一下吧" ∷ "去查查吧" ∷ "去查一下吧" ∷ "帮我查查" ∷ "帮我查一下" ∷ []

abbrev pub affirmations : List String
affirmations = "好的" ∷ "好" ∷ "行" ∷ "行吧" ∷ "嗯" ∷ "嗯嗯" ∷ "可以" ∷ "好呀" ∷ "好哦" ∷ []

-- looks_like_search_confirmation
unfoldable pub search_confirmation : Words → String → Bool
search_confirmation words text =
    let compact = words.compact text in
    not (str_eq compact "")
    && (holds_any words confirmations compact || is_one_of affirmations compact)

abbrev pub blockers : List String
blockers = "怎么" ∷ "为什么" ∷ "查不了" ∷ "不查" ∷ "不用查" ∷ "别查" ∷ "不是" ∷ "我不是" ∷ []

abbrev pub companies : List String
companies = "公司" ∷ "集团" ∷ "股价" ∷ "股票" ∷ "港股" ∷ "美股" ∷ "a股" ∷ "hk" ∷ "us" ∷ "sz" ∷ "sh" ∷ []

-- "\u4e00" <= char <= "\u9fff"
abbrev pub is_cjk : ℕ → Bool
is_cjk c = leb 19968 c && leb c 40959

-- looks_like_search_clarification
unfoldable pub search_clarification : Words → String → Bool
search_clarification words text =
    let compact = words.compact text in
    let cjk = count_where is_cjk (codes compact) in
    if str_eq compact "" || ltb 24 (length (codes compact))
    then false
    else if holds_any words blockers compact
    then false
    else if holds_any words companies compact
    then true
    else if words.has_code compact
    then true
    else leb 2 cjk && leb cjk 8

abbrev pub link_markers : List String
link_markers = "链接" ∷ "原文" ∷ "来源" ∷ "出处" ∷ "网址" ∷ "官网" ∷ "公告" ∷ []

abbrev pub link_patterns : List String
link_patterns =
    "把链接发给我" ∷ "把链接发我" ∷ "把原文发给我" ∷ "把原文发我" ∷ "把来源发给我" ∷ "把来源发我" ∷ "把网址发给我" ∷ "把网址发我" ∷ "链接发给我"
    ∷ "链接发我" ∷ "给我链接" ∷ "给下链接" ∷ "发下链接" ∷ "发我链接" ∷ "原文发给我" ∷ "原文发我" ∷ "给我原文" ∷ "来源发给我" ∷ "来源发我"
    ∷ "给我来源" ∷ "原文呢" ∷ "来源呢" ∷ "链接呢" ∷ "网址呢" ∷ "官网链接" ∷ "公告链接" ∷ []

-- looks_like_search_link_request
unfoldable pub search_link_request : Words → String → Bool
search_link_request words text =
    let compact = words.compact text in
    if str_eq compact "" || ltb 48 (length (codes compact))
    then false
    else if holds_any words ("url" ∷ "source" ∷ []) compact
    then true
    else if not (holds_any words link_markers compact)
    then false
    else if holds_any words link_patterns compact
    then true
    else if is_one_of link_markers compact
    then true
    else holds_any words link_markers compact
      && holds_any words ("发" ∷ "给" ∷ "贴" ∷ "甩" ∷ "来" ∷ []) compact
