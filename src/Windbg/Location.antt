-- ===== src/Windbg/Location.antt =====
-- scripts/windbg.py: the commands `u`, `xs`, `g` and `hh`, and the prompt.
use gef_extras.Common.{
  ℕ, Bool, true, false, ◌||◌, List, [], ◌∷◌, ◌++◌, Option, none, some, Chars, codes, Result, ok,
  err, bind_ok, ◌∙◌, ◌>>=◌, ◌==◌, if◌then◌else◌, ◌≡◌, arith,
}
use gef_extras.Common.Strings.{read_int, join}

pub data Error : Type 0 where
  index_error value_error type_error : Error

-- What `u` disassembles: how many instructions, and from where.
pub record Request : Type 0 where
  pub size : ℕ
  pub location : ℕ

-- `int(loc, 0)` of a value that gdb evaluated: `int` takes a base with a text only, so a value other
-- than zero raises a `TypeError`, with its address or without.
pub set_location : Option ℕ → Request → Result Error Request
set_location none request = ok request
set_location (some loc) request = if loc == 0 then ok request else err type_error

-- What gdb evaluates a text to is a parameter.
module _ (evaluate : Chars → Option ℕ) where
  -- One round of the loop over the arguments of `u`.
  pub read_argument : Chars → Request → Result Error Request
  unfolding set_location
  read_argument [] request = err index_error
  read_argument (c ∷ rest) request = elim (c == b'l' || c == b'L') [
    | true ↦ elim (read_int 10 rest) [
      | none ↦ err value_error
      | some n ↦ ok (record request { size = n })
    ]
    | false ↦ set_location (evaluate (c ∷ rest)) request
  ]

  pub read_arguments : List Chars → Request → Result Error Request
  unfolding read_argument
  read_arguments [] request = ok request
  read_arguments (arg ∷ argv) request =
      read_argument arg request >>= λ next. read_arguments argv next

  -- `do_invoke` of `u`, up to the disassembly.
  unfoldable pub unassemble : ℕ → List Chars → Result Error Request
  unfolding read_arguments
  unassemble pc argv = read_arguments argv (record { size = 16; location = pc })

  location-read_argument :
      (arg : Chars) (request next : Request)
      → read_argument arg request ≡ ok next
      → next.location ≡ request.location
  unfolding read_argument
  location-read_argument [] request next h = cc
  location-read_argument (c ∷ rest) request next h = ground (arith, h)

  location-read_arguments :
      (argv : List Chars) (request next : Request)
      → read_arguments argv request ≡ ok next
      → next.location ≡ request.location
  unfolding read_arguments
  location-read_arguments [] request next h = ground (arith, h)
  location-read_arguments (arg ∷ argv) request next h =
      let (middle, e, f) = bind_ok (read_argument arg request) (read_arguments argv) h in
      location-read_arguments argv middle next f ∙ location-read_argument arg request middle e

  -- Whatever the arguments are, when `u` gets as far as disassembling it does so from the program
  -- counter: no argument is ever accepted as another location.
  pub unassemble_at_pc :
      (pc : ℕ) (argv : List Chars) (request : Request)
      → unassemble pc argv ≡ ok request
      → request.location ≡ pc
  unfolding unassemble
  unassemble_at_pc pc argv request h = location-read_arguments argv _ request h

-- `do_invoke` of `xs`: the commands for gdb, and whether the usage error is printed; `raises` says
-- of a command whether gdb raises an error, which ends the `try` block.
pub search_symbol : (Chars → Bool) → List Chars → Option (List Chars)
search_symbol raises [] = none
search_symbol raises (sym ∷ rest) =
    let function = codes "info function " ++ sym in
    let address = codes "info address " ++ sym in
    some (if raises function then function ∷ [] else function ∷ address ∷ [])

-- `do_invoke` of `g`: the command for gdb.
pub go : Bool → List Chars → Chars
go true argv = codes "continue"
go false argv = codes "run " ++ join (codes " ") argv

-- `do_invoke` of `hh`: the page that is opened.
pub help_url : List Chars → Chars
help_url [] = codes "https://hugsy.github.io/gef/"
help_url (topic ∷ rest) = codes "https://hugsy.github.io/gef/search.html?q=" ++ topic

pub data Prompt : Type 0 where
  gef_prompt plain_prompt green_prompt red_prompt : Prompt

-- `__windbg_prompt__` and `__default_prompt__`: the settings are `gef.disable_color`,
-- `gef.use-windbg-prompt` and `gef.readline_compat`.
pub windbg_prompt : Bool → Bool → Prompt
windbg_prompt true alive = plain_prompt
windbg_prompt false true = green_prompt
windbg_prompt false false = red_prompt

pub default_prompt : Bool → Bool → Bool → Bool → Prompt
unfolding windbg_prompt
default_prompt use_windbg readline_compat disable_color alive = elim use_windbg [
  | false ↦ gef_prompt
  | true ↦ elim readline_compat [ true ↦ gef_prompt | false ↦ windbg_prompt disable_color alive ]
]
