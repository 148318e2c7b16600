-- ===== src/Lib.antt =====
-- czi-pyramidizer copies a CZI document and adds the pyramid layers that it lacks. This library
-- models libpyramidizer/, from the command line to the exit code, and the console of
-- czi-pyramidizer/.
--
-- The parts, and how they interact. `libmain` has the command line parsed into the options and runs
-- the command that they give. `CheckForPyramid` decides whether there is anything to do. For
-- each plane, `DoPyramidize` copies the subblocks and makes layer 1; `UpperPyramidLayersPyramidizer`
-- makes each further layer from the tiles of the one below: it latches the region to multiples of
-- 2 ^ layer (`PyramidUtilities::EnlargeAndLatch`), goes through its tiles (`TilingEnumerator`),
-- shrinks each to what the tiles below fill (`TileHelper`), composes these (`ComposeBitmaps`) and
-- decimates the composition (`DecimateHelpers`). All of them write to the console, an `IConsoleIo`.
--
-- Which file models what:
--   Prelude: integers, machine words, and `Outcome`, the value, exception or undefined behaviour
--     of a piece of C++;
--   Rect: libCZI's `IntRect`; `RectOps` is the interface to the methods that the source calls;
--   Latch: libpyramidizer/src/pyramid_utilities.cpp, `enlarge_and_latch`;
--   TileHelper: libpyramidizer/src/tile_helper.cpp and the iterators of its callers;
--   Tiling: libpyramidizer/inc/tiling_enumerator.h, the enumerator and the range-for over it;
--   Bitmap: libpyramidizer/src/imaging/bitmapdata.h, a bitmap as a function of the offset;
--   Compose: libpyramidizer/src/imaging/compose.cpp; its child Compose/Fill is about the filling with
--     a background, Compose/Layered about the whole;
--   Decimate: libpyramidizer/src/imaging/decimate_opencv.cpp, with `cv::pyrDown` as a parameter;
--   SubBlocks: libpyramidizer/src/do_pyramidize.cpp, `CopySubBlocksToDestination`;
--   OutputTile: the same file, `WritePyramidOutputTile` and the functions for each compression;
--   Imaging: the interface of the layers to composing and decimating; Imaging/Bitmaps fills it with
--     Compose and Decimate;
--   Upper: libpyramidizer/src/UpperPyramidLayersPyramidizer.cpp, a run as the list of its calls;
--   CheckForPyramid: libpyramidizer/src/CheckForPyramid.cpp;
--   Dimensions: the interface to libCZI's coordinates and bounds of dimensions;
--   Planes: libpyramidizer/inc/plane_enumerator.h, the iterator by its coordinate;
--   Context: libpyramidizer/src/Context.cpp;
--   Pyramidize: libpyramidizer/src/do_pyramidize.cpp, `DoPyramidize`, a run as the list of its calls;
--   Console, Progress: libpyramidizer/IConsoleIo.h, libpyramidizer/libpyramidizer.cpp, the reports;
--   SourceMode, Background, Attachments, Print, Operation: the parts of
--     libpyramidizer/src/pyramidizer_operation.cpp;
--   Main: libpyramidizer/libpyramidizer.cpp, what `libmain` does once `Parse` has returned;
--   Strings: libpyramidizer/src/utilities.cpp, trimming, comparing and converting of strings;
--   Options: libpyramidizer/src/commandlineoptions.cpp and libpyramidizer/inc/commandlineoptions.h:
--     Options/Wrap wraps help texts, Options/Color parses the background colour,
--     Options/PropertyBag the properties of a stream, Options/Help makes the footer of the help, and
--     Options/Parse is `CommandLineOptions::Parse`;
--   Program: `libmain`, which calls that `Parse` first;
--   Terminal: czi-pyramidizer/consoleio.cpp, the escape sequences and the attributes of a console.
-- A child module holds what is proved of its parent; Tests has runs and instances.
--
-- Bounds and fuel. An `int` is an integer, whose range the theorems carry where a sum may leave it;
-- unsigned arithmetic wraps at 2 ^ 32. The loop over a tiling has one round more than there are
-- tiles, and the tile helper one more than there are rectangles, so that neither runs out; the same
-- holds of the loop over the planes. The loop over the layers has 31 rounds, since an `int` halved
-- 30 times does not exceed a tile. A help text is wrapped by recursion on its words. A conversion of
-- a text to wide characters has 64 rounds; one call of a documented `iconv` is enough.
--
-- Not modelled: libCZI, OpenCV, CLI11, rapidjson and iconv, which are parameters; the conversions of
-- the Windows API; the questions that the console's constructor asks the system; the texts of the
-- options and of the program's name and version; the XML of the metadata, of which there are the
-- edits; the lock counter of a bitmap. An allocation does not fail, the type and the name of an
-- attachment fit their fields, and a matrix can be made. Of two errors in one layer, of making a
-- tile and of writing an earlier one, the first is taken.
pub mod Prelude
pub mod Rect
pub mod Latch
pub mod TileHelper
pub mod Tiling
pub mod Bitmap
pub mod Compose
pub mod Decimate
pub mod SubBlocks
pub mod OutputTile
pub mod Imaging
pub mod Upper
pub mod CheckForPyramid
pub mod Dimensions
pub mod Planes
pub mod Context
pub mod Console
pub mod Strings
pub mod Options
pub mod Progress
pub mod Terminal
pub mod Pyramidize
pub mod Print
pub mod SourceMode
pub mod Background
pub mod Attachments
pub mod Operation
pub mod Main
pub mod Program
mod Tests
