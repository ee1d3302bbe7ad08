-- ===== src/Lib.antt =====
-- OpenPanel core (opencore): a model of the daemon behind the OpenPanel control panel, and
-- theorems about it.
--
-- Prelude is shared by all files: Boolean tests on numbers, lists measured by native numbers,
-- integers, results with an error, and maps with text keys as lists of pairs.
--
-- Sessions (session.cpp, session.h): class SessionDB, the sessions of the users. A session is a
-- record in a list that stands for the doubly linked list from `first` to `last`; the search
-- tree that the code threads through the pointers `lower` and `higher` is Sessions/Index. A
-- pointer to a session is its identifier. get, release, create, createFromSerialized, remove,
-- find, demand, link, exists, list, expire, saveToDisk and loadFromDisk are functions of the
-- same names in snake case. The hash of an identifier, the values of the grace library and the
-- state of a session's DBManager are parameters. Every loop recurs on a list or a tree, so no
-- fuel is needed. The lock of the database makes each operation one step, but for
-- expire, which lets go of it around each removal: the model has no other call come in between. Logging is left out.
--
-- Database (dbmanager.cpp, dbmanager.h, sqlite/SCHEMA): class DBManager. The tables objects,
-- powermirror and classquota are lists of rows in the order of their ids (Tables); a query is
-- the filter that its WHERE clause writes. Access has the lookups and rights (findObject,
-- getClassData, classNameFromUUID, userisgone, checkfieldlist), Quota has getUserQuota and
-- setUserQuota, Insert has the INSERT of a new object and copyprototype, Realm has
-- _checkdomainsuffix, Create has createObject, Update has updateObject, deleteObject, the
-- report functions and chown. The proofs are in Powers, Frame, Mirror and Authority (the power
-- mirror), Limits and Assignment (quotas), Rollback, Creation and Order (createObject),
-- Deletion, and Suffix. XML, the NOCASE comparison, the values of the grace library and fresh
-- uuids are parameters (Backend), and texts are otherwise compared exactly. The engine is taken
-- to answer every query, so that an INSERT fails only on a UNIQUE constraint. Error codes are
-- kept, message texts are not. The walk up the owners and the copy of a prototype recur on
-- fuel: where owners were made before what they own, the next id is enough for the walk. A call
-- of getUserQuota for a user who is not there returns before its loop.
--
-- Requests (session.cpp): createObject, updateObject, deleteObject, handleCrypts, handleCascade
-- and chown of class CoreSession. The database, the modules, the classes and the values of the
-- grace library are records of operations (Services) that the handlers take: Store for
-- DBManager, Modules for ModuleDB, the internal classes and syncDynamicObjects, Values for the
-- library. Create is split where the code goes from the checks to the database (prepare_static,
-- prepare_dynamic) and to the module (act). Naming has the completion of an id from the
-- parent's name, on texts as lists of bytes. A module that talks back may
-- change the database, so an action of a module has its state, too. Unchanged, Told, Ends, Removal and Updating
-- say which calls of the database and the modules a request has made. Every loop recurs on a list.
--
-- Modules (moduledb.cpp, moduledb.h, module.cpp, module.h): classes ModuleDB, CoreModule and
-- CoreClass. Flatten has parsetree, which turns the objects that a module reports into rows;
-- Positions is about it. Loading has loadModule with loadDependencies, checkModuleCache,
-- registerQuotas, registerClasses and createStagingDirectory as functions of a state (ModuleDb)
-- that is returned also where the code throws; the file system, the constructor of CoreModule,
-- the programs verify and updateok, DBManager::registerClass and handleGetConfig are an
-- Environment. A module requires at most one other, so loadModule recurs on fuel; anything
-- above the number of modules that can be opened is enough. Frame, Linked, Once, Termination
-- and Classes are about it. Versions are natural numbers. Normalize has normalize, checkEnum
-- and normalizeLayoutNode of CoreClass over the conversions of a grace value (Conversions), and
-- Types and Typing are about them. Action has CoreModule::action on the sessions of Sessions,
-- each with a DBManager of Database; the module program is a function on the sessions, and
-- Claims and Balance are about it. Dispatch has
-- createObject, makeCrypt, callMethod, setSpecialPhysicalQuota, updateObject,
-- listDynamicObjects and deleteObject of ModuleDB, which call it, over the assignments of a
-- grace value (Values); Dispatched and Lost are about
-- them.
--
-- Rpc (rpc.cpp, session.cpp): class RPCHandler. Handler has handle, call, bind and
-- getLanguages, with login and userLogin of CoreSession; the commands that call hands a request
-- to are a parameter (Services). A use of a pointer that leads to no session is `none` there
-- and in Modules/Action, and a command may make one. Binding and Admission are about
-- bind.
--
-- Database/Special has the quotas of other things than objects (getSpecialQuota,
-- setSpecialQuota and the like), on tables of their own; quotas and usages are counts below
-- 2^31, and a sum of two wraps around as an int does. Its walk up the owners recurs on fuel,
-- for which anything above the user's id is enough; Allowance is about it. Database/Login has
-- login, userLogin, logout, getCredentials and setCredentials, over the hash of a password.
--
-- Database/Tree has listObjectTree and _listObjectTree, which recur on fuel; where objects come
-- after their parents and owners, the next id is enough. Below and Descent are about them.
--
-- Modules/Import has the loop of handleGetConfig over the rows of parsetree, with the calls of
-- DBManager as parameters (Importer); Imported is about it. It recurs on the list of rows.
--
-- Not modelled: the HTTP handlers, the single RPC commands, the listings of classes and
-- synchronizeClass of ModuleDB, the reading of module.xml, the internal classes, the calls of module programs,
-- alerts, start-up, the shell, and the bindings under api.
pub mod Prelude
pub mod Sessions
pub mod Database
pub mod Requests
pub mod Modules
pub mod Rpc
