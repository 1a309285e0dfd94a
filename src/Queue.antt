-- ===== src/Queue.antt =====
-- src/chitra/queue_state.py: the file system under a queue directory, as the calls of the operating
-- system that the module makes see it, and the names of the queue's files. A failure of a call for a
-- reason outside the directory is a parameter, and so are the process table and `int`.
pub mod Entries
pub mod Names
pub mod Moves
pub mod Publish
pub mod Once
pub mod Claims
pub mod Results
pub mod Requeue
pub mod Records
mod Examples
use Prim.Native.String.{◌++◌ as append}
use chitra.Prelude.{
  ℕ, ◌+◌, String, ◌==◌, Bool, true, false, not, ◌&&◌, ◌||◌, Option, none, some, List, [], ◌∷◌, map,
  all, if◌then◌else◌, Result, ok, err, eqb, leb, codes, is_alnum, is_name_char, length, select,
  is_some, drop_prefix,
}

pub data QueueSubdir : Type 0 where
  orders in_flight deferred results processed invalid : QueueSubdir

-- what stands at a directory's path
pub data Kind : Type 0 where
  absent directory symlinked other : Kind

pub record QueuePath : Type 0 where
  pub dir : QueueSubdir
  pub name : String

-- a name of an inode, or a symbolic link with the inode it leads to, if any
pub data Entry : Type 0 where
  file : ℕ → Entry
  symlink : Option ℕ → Entry

pub data QueueError : Type 0 where
  value_error : String → QueueError
  file_exists file_not_found os_error : QueueError

pub data ℤ : Type 0 where
  pos : ℕ → ℤ
  negsuc : ℕ → ℤ

pub record Files : Type 0 where
  pub entries : List (QueuePath × Entry)
  pub text : ℕ → String
  -- the next inode
  pub next : ℕ
  pub root : Kind
  pub kind : QueueSubdir → Kind

-- which calls fail with another error, the processes, `int(text)` and `str(pid)`, and the random part
-- of a temporary file's name
pub record Os : Type 0 where
  pub link_fails : QueuePath → QueuePath → Bool
  pub unlink_fails : QueuePath → Bool
  pub rename_fails : QueuePath → QueuePath → Bool
  pub create_fails : QueuePath → Bool
  -- does `os.kill(pid, 0)` return? It raises for a dead process and for that of another user (EPERM).
  pub can_signal : ℕ → Bool
  pub int_of : String → Option ℤ
  pub str_of : ℕ → String
  pub random : String

subdir_rank : QueueSubdir → ℕ
subdir_rank orders = 0
subdir_rank in_flight = 1
subdir_rank deferred = 2
subdir_rank results = 3
subdir_rank processed = 4
subdir_rank invalid = 5

unfoldable pub same_path : QueuePath → QueuePath → Bool
unfolding subdir_rank
same_path p q = eqb (subdir_rank p.dir) (subdir_rank q.dir) && p.name == q.name

pub find_entry : QueuePath → List (QueuePath × Entry) → Option Entry
find_entry p [] = none
find_entry p (x ∷ xs) = let rest = find_entry p xs in if same_path p x.0 then some x.1 else rest

abbrev pub lookup : QueuePath → Files → Option Entry
lookup p s = find_entry p s.entries

abbrev pub add : QueuePath → Entry → Files → Files
add p e s = record s { entries = (p, e) ∷ s.entries }

pub without : QueuePath → List (QueuePath × Entry) → List (QueuePath × Entry)
without p xs = select (λ x. not (same_path p x.0)) xs

abbrev pub remove : QueuePath → Files → Files
remove p s = record s { entries = without p s.entries }

-- A routine: what it returns or raises, and the files that it leaves.
abbrev pub Io : Type 0 → Type 0
Io A = Files → Result QueueError A × Files

abbrev pub pure : {A : Type 0} → A → Io A
pure a s = (ok a, s)

abbrev pub raise : {A : Type 0} → QueueError → Io A
raise e s = (err e, s)

abbrev pub gets : {A : Type 0} → (Files → A) → Io A
gets f s = (ok (f s), s)

abbrev pub caught :
    {A B : Type 0}
    → Result QueueError A × Files
    → (A → Io B)
    → (QueueError → Io B)
    → Result QueueError B × Files
caught (ok a, s) f h = f a s
caught (err e, s) f h = h e s

-- try: m; except: h; else: f
abbrev pub catch : {A B : Type 0} → Io A → (A → Io B) → (QueueError → Io B) → Io B
catch m f h s = caught (m s) f h

infixl 10 ◌>>=◌ ◌>>◌
abbrev pub ◌>>=◌ : {A B : Type 0} → Io A → (A → Io B) → Io B
m >>= f = catch m f raise

abbrev pub ◌>>◌ : {A B : Type 0} → Io A → Io B → Io B
m >> n = m >>= λ _. n

abbrev pub is_os_error : QueueError → Bool
is_os_error (value_error m) = false
is_os_error _ = true

-- with contextlib.suppress(OSError)
abbrev pub suppress : Io (Unit {0}) → Io (Unit {0})
suppress m = catch m pure (λ e. if is_os_error e then pure tt else raise e)

abbrev pub check : Bool → QueueError → Io (Unit {0})
check true e = pure tt
check false e = raise e

abbrev pub entry_symlink : Option Entry → Bool
entry_symlink (some (symlink t)) = true
entry_symlink _ = false

-- the inode that a path leads to
abbrev pub target : Option Entry → Option ℕ
target none = none
target (some (file i)) = some i
target (some (symlink t)) = t

-- path.is_symlink(), path.exists()
abbrev pub is_symlink : QueuePath → Files → Bool
is_symlink p s = entry_symlink (lookup p s)

abbrev pub exists : QueuePath → Files → Bool
exists p s = is_some (target (lookup p s))

pub text_of : Option ℕ → (ℕ → String) → Option String
text_of none f = none
text_of (some i) f = some (f i)

-- path.read_text()
abbrev pub read_text : QueuePath → Files → Option String
read_text p s = text_of (target (lookup p s)) s.text

abbrev pub is_directory : Kind → Bool
is_directory directory = true
is_directory _ = false

link_at : QueuePath → Option Entry → Option Entry → Io (Unit {0})
link_at q none d s = (err file_not_found, s)
link_at q (some e) (some d) s = (err file_exists, s)
link_at q (some e) none s =
    if is_directory (s.kind q.dir) then (ok tt, add q e s) else (err file_not_found, s)

unlink_at : QueuePath → Option Entry → Io (Unit {0})
unlink_at p none s = (err file_not_found, s)
unlink_at p (some e) s = (ok tt, remove p s)

same_entry : Entry → Option Entry → Bool
same_entry (file i) (some (file j)) = eqb i j
same_entry _ _ = false

-- a rename onto another name of the same file does nothing
rename_at : QueuePath → QueuePath → Option Entry → Io (Unit {0})
unfolding same_entry
rename_at p q none s = (err file_not_found, s)
rename_at p q (some e) s =
    if same_path p q || same_entry e (lookup q s)
    then (ok tt, s)
    else if not (is_directory (s.kind q.dir))
    then (err file_not_found, s)
    else (ok tt, add q e (remove p (remove q s)))

abbrev pub write : ℕ → String → (ℕ → String) → ℕ → String
write i t f j = if eqb j i then t else f j

create_at : QueuePath → String → Option Entry → Io (Unit {0})
create_at p t (some e) s = (err file_exists, s)
create_at p t none s =
    if is_directory (s.kind p.dir)
    then (
      ok tt,
      record s {
        entries = (p, file s.next) ∷ s.entries;
        text = write s.next t s.text;
        next = s.next + 1;
      },
    )
    else (err file_not_found, s)

module _ (os : Os) where
  -- os.link(p, q)
  pub link : QueuePath → QueuePath → Io (Unit {0})
  unfolding link_at
  link p q s =
      if os.link_fails p q then (err os_error, s) else link_at q (lookup p s) (lookup q s) s

  -- p.unlink()
  pub unlink : QueuePath → Io (Unit {0})
  unfolding unlink_at
  unlink p s = if os.unlink_fails p then (err os_error, s) else unlink_at p (lookup p s) s

  -- p.rename(q)
  pub rename : QueuePath → QueuePath → Io (Unit {0})
  unfolding rename_at
  rename p q s = if os.rename_fails p q then (err os_error, s) else rename_at p q (lookup p s) s

  -- a new file, written, flushed and closed
  pub create : QueuePath → String → Io (Unit {0})
  unfolding create_at
  create p t s = if os.create_fails p then (err os_error, s) else create_at p t (lookup p s) s

  -- NamedTemporaryFile(delete=False), the body, and then the removal of the temporary file
  pub with_temporary : QueuePath → String → Io (Unit {0}) → Io (Unit {0})
  with_temporary p t body = do
    create p t
    catch body (λ _. suppress (unlink p)) (λ e. suppress (unlink p) >> raise e)

make_at : QueueSubdir → Kind → Io (Unit {0})
unfolding subdir_rank
make_at d directory s = (ok tt, s)
make_at d absent s = (
  ok tt,
  record s { kind = λ c. if eqb (subdir_rank c) (subdir_rank d) then directory else s.kind c },
)
make_at d _ s = (err file_exists, s)

-- d.mkdir(parents=True, exist_ok=True)
pub make_directory : QueueSubdir → Io (Unit {0})
unfolding make_at
make_directory d s = make_at d (s.kind d) s

real_kind : Kind → Bool
real_kind absent = true
real_kind directory = true
real_kind _ = false

-- `_require_real_directory`
pub require_real_directory : QueueSubdir → Io (Unit {0})
unfolding real_kind
require_real_directory d s = check (real_kind (s.kind d)) (value_error "must be a real directory") s

-- `QueueLayout(root)`, and `_subdir`, which checks the root again
pub require_real_root : Io (Unit {0})
unfolding real_kind
require_real_root s = check (real_kind s.root) (value_error "queue root must be a real directory") s

unfoldable pub subdir : QueueSubdir → Io QueueSubdir
subdir d = do require_real_root; require_real_directory d; pure d

-- [A-Za-z0-9][A-Za-z0-9_.-]{0,191}
order_id_codes : List ℕ → Bool
order_id_codes [] = false
order_id_codes (c ∷ cs) = is_alnum c && all is_name_char cs && leb (length cs) 191

-- `_require_safe_order_id`
pub require_safe_order_id : String → Io (Unit {0})
unfolding order_id_codes
require_safe_order_id i = check (order_id_codes (codes i)) (value_error "unsafe order id")

-- `_require_real_file`
unfoldable pub require_real_file : QueuePath → Io (Unit {0})
require_real_file p = do
  linked ← gets (is_symlink p)
  check (not linked) (value_error "must not be a symlink")

abbrev pub dotted : QueueSubdir → String → String → QueuePath
dotted d i ending = record { dir = d; name = append "." (append i ending) }

abbrev pub owner_marker : String → QueuePath
owner_marker i = dotted in_flight i ".owner"

abbrev pub result_file : String → QueuePath
result_file i = record { dir = results; name = append i ".json" }

-- the name without an ending, if it has it
unfoldable pub drop_suffix : String → String → Option String
drop_suffix e String.[] = if "" == e then some "" else none
drop_suffix e (String.◌∷◌ c s) =
    let rest = drop_suffix e s in
    if String.◌∷◌ c s == e
    then some ""
    else elim rest [ none ↦ none | some t ↦ some (String.◌∷◌ c t) ]

-- the stem of a name that "*.json" matches
unfoldable pub order_stem : String → Option String
order_stem n = drop_suffix ".json" n

-- the order id in a name that ".*.owner" matches
owned_part : Option String → Option String
unfolding drop_suffix
owned_part none = none
owned_part (some rest) = drop_suffix ".owner" rest

pub marked_order : String → Option String
unfolding drop_prefix owned_part
marked_order n = owned_part (drop_prefix "." n)

in_dir : QueueSubdir → List (QueuePath × Entry) → List String
in_dir d [] = []
in_dir d (x ∷ xs) =
    let rest = in_dir d xs in
    if eqb (subdir_rank x.0.dir) (subdir_rank d) then x.0.name ∷ rest else rest

-- the names that `glob` finds in a directory, before it matches them
pub listing : QueueSubdir → Files → List String
unfolding in_dir
listing d s = if is_directory (s.kind d) then in_dir d s.entries else []
