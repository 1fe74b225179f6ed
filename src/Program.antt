-- ===== src/Program.antt =====
-- The test program, src/r2test.c, built without DAHDI's MF interface: the options of its
-- configuration file and the groups of channels that they make.
pub mod Scan
pub mod Rows
pub mod Parse
pub mod Fits
pub mod Stored
pub mod Contexts
pub mod SetUp
pub mod Opened
pub mod User
pub mod Polite
use openr.Prelude.{ℕ, ℤ, pos, negsuc, Bool, true, false, Option, none, some, List, []}
use openr.Types.{Category, Variant}

-- What the options of the file set: the local variables of parse_config that a group is filled
-- from. A string is its bytes; `audiofile` is not set before its line, and then its bytes are any.
pub record Options : Type 0 where
  pub category : Category
  pub variant : Variant
  pub loglevel : ℕ
  pub max_ani : ℤ
  pub max_dnis : ℤ
  pub getanifirst : Bool
  pub usedahdimf : Bool
  pub mf_threshold : ℤ
  pub mf_backtimeout : ℤ
  pub callfiles : Bool
  pub meteringpulse_timeout : ℤ
  pub collect_calls : Bool
  pub charge_calls : Bool
  pub double_answer : Bool
  pub immediateaccept : Bool
  pub skipcategory : Bool
  pub caller : Bool
  pub playaudio : Bool
  pub dnid : List ℕ
  pub cid : List ℕ
  pub r2file : List ℕ
  pub audiofile : Option (List ℕ)

abbrev pub first_options : Options
first_options = record {
  category = Category.national_subscriber;
  variant = Variant.unknown;
  loglevel = 0;
  max_ani = pos 0;
  max_dnis = pos 0;
  getanifirst = false;
  usedahdimf = false;
  mf_threshold = pos 0;
  mf_backtimeout = pos 0;
  callfiles = false;
  meteringpulse_timeout = negsuc 0;
  collect_calls = false;
  charge_calls = true;
  double_answer = false;
  immediateaccept = false;
  skipcategory = false;
  caller = false;
  playaudio = false;
  dnid = [];
  cid = [];
  r2file = [];
  audiofile = none;
}

-- What parse_config stores of a group: the options of the moment, and the range of channels.
pub record Group : Type 0 where
  pub lowchan : ℤ
  pub highchan : ℤ
  pub options : Options

-- MAX_GROUPS, MAX_CHANS
abbrev pub max_groups : ℕ
max_groups = 50

abbrev pub max_chans : ℕ
max_chans = 30
