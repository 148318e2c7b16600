-- ===== src/Options.antt =====
-- libpyramidizer/src/commandlineoptions.cpp: the options of the command line. CLI11, rapidjson and
-- libCZI's parser of compression options are parameters.
pub mod Wrap
pub mod Color
pub mod PropertyBag
pub mod Help
pub mod Parse
